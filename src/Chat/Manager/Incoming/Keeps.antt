-- ===== src/Chat/Manager/Incoming/Keeps.antt =====
-- internal/chat/manager_ops.go: what an envelope or a receipt keeps, given that an event and a key re-fetch
-- keep it.
use vayu_mail_mobile.Base.{
  ℕ, Bool, true, false, Option, none, some, List, [], ◌∷◌, Bytes, codes, eq_bytes, Bool-cases, inl,
  inr,
}
use vayu_mail_mobile.Chat.Events.{Event}
use vayu_mail_mobile.Chat.Stream.{StreamEvent, Envelope, envelope, receipt, ping}
use vayu_mail_mobile.Chat.Manager.{Decrypted, Config, Manager, emit}
use vayu_mail_mobile.Chat.Manager.Incoming.{
  resync_once, deliver, second_try, open_envelope, decoded_envelope, handle_envelope,
  handle_receipt, handle_stream_event, handle_all,
}

module _ {K : Type 0} (C : Config K) (Good : Manager K → Type 0)
    (emit_Good : (ev : Event) (m : Manager K) → Good m → Good (emit C ev m))
    (resync_Good : (m : Manager K) → Good m → Good (resync_once C m).1) where
  deliver-Good :
      (e : Envelope (Option ℕ)) (o : Option Decrypted) (m : Manager K)
      → Good m
      → Good (deliver C e o m)
  deliver-Good e none m h = h
  deliver-Good e (some d) m h = emit_Good _ m h

  second_try-Good :
      (e : Envelope (Option ℕ)) (raw : Bytes) (r : Bool × Manager K)
      → Good r.1
      → Good (second_try C e raw r)
  second_try-Good e raw (false, m) h = h
  second_try-Good e raw (true, m) h = deliver-Good e (C.decrypt m.keys raw) m h

  open_envelope-Good :
      (e : Envelope (Option ℕ)) (raw : Bytes) (o : Option Decrypted) (m : Manager K)
      → Good m
      → Good (open_envelope C e raw o m)
  open_envelope-Good e raw (some d) m h = deliver-Good e (some d) m h
  open_envelope-Good e raw none m h = second_try-Good e raw (resync_once C m) (resync_Good m h)

  decoded_envelope-Good :
      (e : Envelope (Option ℕ)) (o : Option Bytes) (m : Manager K)
      → Good m
      → Good (decoded_envelope C e o m)
  decoded_envelope-Good e none m h = h
  decoded_envelope-Good e (some raw) m h = open_envelope-Good e raw (C.decrypt m.keys raw) m h

  handle-Good :
      (ev : StreamEvent (Option ℕ)) (m : Manager K) → Good m → Good (handle_stream_event C ev m)
  unfolding handle_stream_event handle_envelope handle_receipt
  handle-Good (envelope e) m h = decoded_envelope-Good e (C.decode_base64 e.ciphertext) m h
  handle-Good ping m h = h
  handle-Good (receipt r) m h = elim (Bool-cases (eq_bytes r.status (codes "read"))) [
    | inl is_read ↦ rw is_read (emit_Good _ m h)
    | inr unread ↦ rw unread (elim (Bool-cases (eq_bytes r.status (codes "expired"))) [
      | inl is_expired ↦ rw is_expired (emit_Good _ m h)
      | inr unknown ↦ rw unknown h
    ])
  ]

  pub handle_all-Good :
      (evs : List (StreamEvent (Option ℕ))) (m : Manager K) → Good m → Good (handle_all C evs m)
  unfolding handle_all
  handle_all-Good [] m h = h
  handle_all-Good (ev ∷ evs) m h =
      handle_all-Good evs (handle_stream_event C ev m) (handle-Good ev m h)
