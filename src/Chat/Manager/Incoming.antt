-- ===== src/Chat/Manager/Incoming.antt =====
-- internal/chat/manager.go and manager_ops.go: what comes in over the stream, and the loop that keeps the
-- stream open.
pub mod Keeps
pub mod Cooldown
use vayu_mail_mobile.Base.{
  ℕ, zero, suc, ◌+◌, ◌*◌, Bool, true, false, Option, none, some, List, [], ◌∷◌, ◌++◌, Bytes, codes,
  eq_bytes, ltb, if◌then◌else◌, Exec, Result, ok, err, ◌>>=◌,
}
use vayu_mail_mobile.Chat.Events.{
  ChatError, IncomingMessage, Event, incoming, message_read, message_expired, conn_state,
}
use vayu_mail_mobile.Chat.Stream.{
  Codec, Envelope, ReceiptWire, StreamEvent, envelope, receipt, ping, parse_sse,
}
use vayu_mail_mobile.Chat.Transport.{open_stream}
use vayu_mail_mobile.Chat.Manager.{
  Decrypted, Fetch, Config, Manager, resync_cooldown, resync_fail_backoff, lookup, is_valid, emit,
  with_token, ensure_token, second,
}

abbrev pub min_backoff : ℕ
min_backoff = 1 * second

abbrev pub max_backoff : ℕ
max_backoff = 30 * second

unfoldable pub next_backoff : ℕ → ℕ
next_backoff d = if ltb max_backoff (d * 2) then max_backoff else d * 2

-- the wait that follows a re-fetch
abbrev pub wait_after : Bool → ℕ
wait_after succeeded = if succeeded then resync_cooldown else resync_fail_backoff

abbrev pub cools_down : ℕ → Option ℕ → Bool
cools_down now none = false
cools_down now (some t) = ltb now t

unfoldable pub message_of : Envelope (Option ℕ) → Decrypted → IncomingMessage
message_of e d = record {
  peer = e.from;
  id = e.id;
  plaintext = d.plaintext;
  authentic = is_valid d.signature;
  sender_fingerprint = if is_valid d.signature then d.signed_by else [];
  created_at = e.created_at;
  expires_at = e.expires_at;
  burn_seconds = e.burn_seconds;
  mode = e.mode;
}

module _ {K : Type 0} (C : Config K) where
  abbrev tick : Manager K → ℕ × Manager K
  tick m = (C.clock m.ticks, record m { ticks = suc m.ticks })

  abbrev pub fetched : ℕ → Option K → Manager K → Bool × Manager K
  fetched began none m =
      let (ended, m) = tick m in
      (
        false,
        record m {
          next_resync = some (ended + resync_fail_backoff);
          fetches = m.fetches ++ record { began = began; ended = ended; succeeded = false } ∷ [];
        },
      )
  fetched began (some keys) m =
      let (ended, m) = tick m in
      (
        true,
        record m {
          keys = keys;
          next_resync = some (ended + resync_cooldown);
          fetches = m.fetches ++ record { began = began; ended = ended; succeeded = true } ∷ [];
        },
      )

  unfoldable pub resync_with : Option (ℕ → K → Option K) → Manager K → Bool × Manager K
  resync_with none m = (false, m)
  resync_with (some fetch) m =
      let (now, m) = tick m in
      if cools_down now m.next_resync then (false, m) else fetched now (fetch m.ticks m.keys) m

  unfoldable pub resync_once : Manager K → Bool × Manager K
  unfolding resync_with
  resync_once = resync_with C.resync_key

  abbrev pub deliver : Envelope (Option ℕ) → Option Decrypted → Manager K → Manager K
  deliver e none m = m
  deliver e (some d) m = emit C (incoming (message_of e d)) m

  abbrev pub second_try : Envelope (Option ℕ) → Bytes → Bool × Manager K → Manager K
  second_try e raw (false, m) = m
  second_try e raw (true, m) = deliver e (C.decrypt m.keys raw) m

  abbrev pub open_envelope : Envelope (Option ℕ) → Bytes → Option Decrypted → Manager K → Manager K
  open_envelope e raw (some d) m = deliver e (some d) m
  open_envelope e raw none m = second_try e raw (resync_once m)

  abbrev pub decoded_envelope : Envelope (Option ℕ) → Option Bytes → Manager K → Manager K
  decoded_envelope e none m = m
  decoded_envelope e (some raw) m = open_envelope e raw (C.decrypt m.keys raw) m

  unfoldable pub handle_envelope : Envelope (Option ℕ) → Manager K → Manager K
  unfolding emit message_of resync_once
  handle_envelope e m = decoded_envelope e (C.decode_base64 e.ciphertext) m

  unfoldable pub handle_receipt : ReceiptWire → Manager K → Manager K
  unfolding emit
  handle_receipt r m =
      if eq_bytes r.status (codes "read")
      then emit C (message_read (lookup [] r.id m.sent_to) r.id) m
      else if eq_bytes r.status (codes "expired")
      then emit C (message_expired r.id) m
      else m

  unfoldable pub handle_stream_event : StreamEvent (Option ℕ) → Manager K → Manager K
  unfolding handle_envelope handle_receipt
  handle_stream_event (envelope e) m = handle_envelope e m
  handle_stream_event (receipt r) m = handle_receipt r m
  handle_stream_event ping m = m

  unfoldable pub handle_all : List (StreamEvent (Option ℕ)) → Manager K → Manager K
  unfolding handle_stream_event
  handle_all [] m = m
  handle_all (ev ∷ evs) m = handle_all evs (handle_stream_event ev m)

  -- one turn of the loop in `run`: the wait that ends it, and the state
  abbrev pub turned : Codec (Option ℕ) → ℕ → Result ChatError Bytes × Manager K → ℕ × Manager K
  turned codec backoff (err e, m) = (backoff, emit C (conn_state false (some e)) m)
  turned codec backoff (ok body, m) = (
    min_backoff,
    emit C (conn_state false none)
        (handle_all (parse_sse codec body) (emit C (conn_state true none) m)),
  )

  unfoldable pub turn : Codec (Option ℕ) → ℕ → Manager K → ℕ × Manager K
  unfolding ensure_token open_stream handle_all emit
  turn codec backoff m =
      turned codec backoff
        ((ensure_token C >>= λ token. with_token C (open_stream C.net token C.domain)) m)

  -- `n` turns that nothing cancels, and the waits between them
  unfoldable pub run : Codec (Option ℕ) → ℕ → ℕ → Manager K → List ℕ × Manager K
  unfolding turn next_backoff
  run codec zero backoff m = ([], m)
  run codec (suc n) backoff m =
      let (wait, m) = turn codec backoff m in
      let (waits, m) = run codec n (next_backoff wait) m in (wait ∷ waits, m)
