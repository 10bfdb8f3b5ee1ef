-- ===== src/Chat/Manager.antt =====
-- internal/chat/manager.go and manager_ops.go: the engine of VayuTalk. What time.Now answers is a
-- sequence, of which the state holds the position. `fetches` is a record beside the state: when each key
-- re-fetch began and ended, and whether it succeeded.
pub mod Operations
pub mod Incoming
pub mod Calls
pub mod Session
pub mod Wire
pub mod Origin
use vayu_mail_mobile.Base.{
  ℕ, ℤ, pos, ◌+◌, ◌*◌, suc, Bool, true, false, not, ◌&&◌, Option, none, some, List, [], ◌∷◌, ◌++◌,
  map, Bytes, codes, eq_bytes, length, lower, trim_space, ltb, if◌then◌else◌, Exec, Result, ok, err,
  ◌>>=◌, ◌>>◌, pure, raise,
}
use vayu_mail_mobile.Store.Db.{Db}
use vayu_mail_mobile.Store.Settings.{get_setting, set_setting}
use vayu_mail_mobile.Chat.Events.{
  ChatError, talk_auth, talk_error, credential_error, keyring_error, settings_error,
  IncomingMessage, Event, incoming, message_read, message_expired, delivered, peer_key,
}
use vayu_mail_mobile.Chat.Stream.{Envelope, ReceiptWire, StreamEvent, envelope, receipt, ping}
use vayu_mail_mobile.Chat.Transport.{Net, Requests, connect, send, ack, fetch_pub_key}

abbrev pub second : ℕ
second = 1000000000

abbrev pub resync_cooldown : ℕ
resync_cooldown = 30 * second

abbrev pub resync_fail_backoff : ℕ
resync_fail_backoff = 5 * second

abbrev pub event_capacity : ℕ
event_capacity = 128

abbrev pub setting_prefix : Bytes
setting_prefix = codes "talk-verified:"

pub data SignatureStatus : Type 0 where
  sig_none sig_valid sig_invalid sig_unknown_key : SignatureStatus

pub record Decrypted : Type 0 where
  pub plaintext : Bytes
  pub signature : SignatureStatus
  pub signed_by : Bytes

pub record Fetch : Type 0 where
  pub began : ℕ
  pub ended : ℕ
  pub succeeded : Bool

-- the collaborators of Config; `K` is a state of the keyring
pub record Config (K : Type 0) : Type 0 where
  pub net : Net
  pub self_email : Bytes
  pub domain : Bytes
  pub credential : Requests → Option Bytes
  pub has_settings : Bool
  pub resync_key : Option (ℕ → K → Option K)
  pub encrypt : K → Bytes → Bytes → Bytes → Option Bytes
  pub decrypt : K → Bytes → Option Decrypted
  pub import_armored : K → Bytes → Option K
  pub encode_base64 : Bytes → Bytes
  pub decode_base64 : Bytes → Option Bytes
  pub clock : ℕ → ℕ

pub record Manager (K : Type 0) : Type 0 where
  pub token : Bytes
  pub sent_to : List (Bytes × Bytes)
  pub verified_mem : List (Bytes × Bool)
  pub next_resync : Option ℕ
  pub events : List Event
  pub requests : Requests
  pub db : Db
  pub keys : K
  pub ticks : ℕ
  pub fetches : List Fetch

module _ {A : Type 0} where
  -- a Go map, the newest entry first
  abbrev pub lookup : A → Bytes → List (Bytes × A) → A
  lookup zero_value k [] = zero_value
  lookup zero_value k ((j, a) ∷ rows) =
      let rest = lookup zero_value k rows in if eq_bytes j k then a else rest

abbrev pub is_valid : SignatureStatus → Bool
is_valid sig_valid = true
is_valid _ = false

abbrev pub normal_fingerprint : Bytes → Bytes
normal_fingerprint fingerprint = map lower (trim_space fingerprint)

module _ {K : Type 0} (C : Config K) where
  -- a full channel drops the event
  unfoldable pub emit : Event → Manager K → Manager K
  emit ev m =
      if ltb (length m.events) event_capacity then record m { events = m.events ++ ev ∷ [] } else m

  abbrev pub clear_token : Manager K → Manager K
  clear_token m = record m { token = [] }

  -- a call of the transport; with a token, a refusal by 401 clears it
  abbrev pub on_wire : {A : Type 0} → Exec Requests ChatError A → Exec (Manager K) ChatError A
  on_wire op m = let r = op m.requests in (r.0, record m { requests = r.1 })

  abbrev pub after_refusal :
      {A : Type 0} → Result ChatError A × Manager K → Result ChatError A × Manager K
  after_refusal (err talk_auth, m) = (err talk_auth, clear_token m)
  after_refusal (r, m) = (r, m)

  abbrev pub with_token : {A : Type 0} → Exec Requests ChatError A → Exec (Manager K) ChatError A
  with_token op m = after_refusal (on_wire op m)

  abbrev pub given : {A : Type 0} → ChatError → Option A → Exec (Manager K) ChatError A
  given e none = raise e
  given e (some a) = pure a

  abbrev pub new_token : Exec (Manager K) ChatError Bytes
  new_token m =
      (given credential_error (C.credential m.requests)
          >>= (λ password. on_wire (connect C.net C.domain C.self_email password))
          >>= λ token m. (ok token, record m { token = token }))
        m

  unfoldable pub ensure_token : Exec (Manager K) ChatError Bytes
  unfolding connect
  ensure_token m = if eq_bytes m.token [] then new_token m else (ok m.token, m)
