-- ===== src/Applock.antt =====
-- internal/applock: the PIN lock, its second factor and the lockout ladder that both share.
pub mod Pin
pub mod Ladder
pub mod Manager
pub mod StandIns
mod Tests
