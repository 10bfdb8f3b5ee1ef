-- ===== src/UiState.antt =====
-- ui/state: what the screens show, and the gates in front of them.
pub mod Nav
pub mod Decrypt
pub mod Preferences
pub mod Gate
pub mod Talk
pub mod Undo
mod DecryptTests
mod GateTests
mod Tests
mod TalkTests
