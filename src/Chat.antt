-- ===== src/Chat.antt =====
-- internal/chat: VayuTalk.
pub mod SafetyNumber
pub mod Stream
pub mod Events
pub mod Transport
pub mod Manager
pub mod StandIns
mod ManagerTests
mod Tests
