-- ===== src/Chat/Events.antt =====
-- internal/chat/events.go: what the chat engine reports to the screens. Times are nanoseconds; a zero
-- time.Time is none.
use vayu_mail_mobile.Base.{ℕ, ℤ, Bool, Option, Bytes}

-- the sentinel errors of internal/chat/transport.go, and the errors that come from elsewhere
pub data ChatError : Type 0 where
  talk_auth talk_disabled talk_error : ChatError
  credential_error keyring_error settings_error context_error : ChatError

pub record IncomingMessage : Type 0 where
  pub peer : Bytes
  pub id : Bytes
  pub plaintext : Bytes
  pub authentic : Bool
  pub sender_fingerprint : Bytes
  pub created_at : Option ℕ
  pub expires_at : Option ℕ
  pub burn_seconds : ℤ
  pub mode : Bytes

pub data Event : Type 0 where
  incoming : IncomingMessage → Event
  message_read : (peer id : Bytes) → Event
  message_expired : (id : Bytes) → Event
  delivered : (id : Bytes) (done : Bool) → Event
  peer_key : (peer fingerprint : Bytes) (verified : Bool) → Event
  conn_state : (online : Bool) (error : Option ChatError) → Event
