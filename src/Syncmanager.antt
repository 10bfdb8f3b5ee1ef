-- ===== src/Syncmanager.antt =====
-- internal/syncmanager: the engine's connections and its periodic work.
pub mod Connpool
pub mod Exec
pub mod Send
pub mod Scheduler
mod ExecTests
mod Tests
