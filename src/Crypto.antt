-- ===== src/Crypto.antt =====
-- internal/crypto: where secrets are kept.
pub mod Keystore
pub mod MasterKey
pub mod Sealed
mod Tests
