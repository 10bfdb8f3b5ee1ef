-- ===== src/Store.antt =====
-- internal/store: the SQLite cache.
pub mod Db
pub mod Settings
pub mod Outbox
pub mod Messages
mod Tests
