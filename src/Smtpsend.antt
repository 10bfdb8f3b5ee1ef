-- ===== src/Smtpsend.antt =====
-- internal/mail/smtpsend: sending what is queued.
pub mod Outbox
pub mod Bcc
pub mod Client
mod Tests
