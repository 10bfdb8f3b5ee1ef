-- ===== src/Chat/Manager/Origin.antt =====
-- internal/chat/manager_ops.go, handleEnvelope: where the messages come from that the engine reports.
use vayu_mail_mobile.Base.{
  ℕ, suc, ◌≡◌, refl, Bool, true, false, Option, none, some, List, [], ◌∷◌, Bytes, codes, eq_bytes,
  ltb, length, All, All-append, All-at, Memᴰ, Bool-cases, inl, inr,
}
use vayu_mail_mobile.Chat.Events.{IncomingMessage, Event, incoming, message_read, message_expired}
use vayu_mail_mobile.Chat.Stream.{StreamEvent, Envelope, ReceiptWire, envelope, receipt, ping}
use vayu_mail_mobile.Chat.Manager.{Decrypted, Config, Manager, emit, event_capacity, lookup}
use vayu_mail_mobile.Chat.Manager.Incoming.{
  cools_down, resync_with, resync_once, fetched, deliver, second_try, open_envelope,
  decoded_envelope, handle_envelope, handle_receipt, handle_stream_event, handle_all, message_of,
}

module _ {K : Type 0} (C : Config K) (came : Envelope (Option ℕ) → Type 0) where
  -- the decryption of an envelope that came, by a keyring of the engine
  abbrev pub Opened : IncomingMessage → Type 0
  Opened e =
      (v : Envelope (Option ℕ)) × (raw : Bytes) × (keys : K) × (d : Decrypted) × came v
      × (C.decode_base64 v.ciphertext ≡ some raw)
      × (C.decrypt keys raw ≡ some d)
      × (e ≡ message_of v d)

  abbrev pub HasOrigin : Event → Type 0
  HasOrigin (incoming e) = Opened e
  HasOrigin _ = Unit

  abbrev pub Accounted : Manager K → Type 0
  Accounted m = All HasOrigin m.events

  emit-Accounted :
      (ev : Event) (m : Manager K) → HasOrigin ev → Accounted m → Accounted (emit C ev m)
  unfolding emit
  emit-Accounted ev m o h = elim (Bool-cases (ltb (length m.events) event_capacity)) [
    | inl room ↦ rw room (All-append HasOrigin m.events _ h (o, tt))
    | inr full ↦ rw full h
  ]

  fetched-Accounted :
      (now : ℕ) (o : Option K) (m : Manager K) → Accounted m → Accounted (fetched C now o m).1
  fetched-Accounted now none m h = h
  fetched-Accounted now (some keys) m h = h

  resync-Accounted :
      (f : Option (ℕ → K → Option K)) (m : Manager K)
      → Accounted m
      → Accounted (resync_with C f m).1
  unfolding resync_with
  resync-Accounted none m h = h
  resync-Accounted (some fetch) m h =
      elim (Bool-cases (cools_down (C.clock m.ticks) m.next_resync)) [
        | inl early ↦ rw early h
        | inr late ↦
            rw late (fetched-Accounted (C.clock m.ticks) _ (record m { ticks = suc m.ticks }) h)
      ]

  deliver-Accounted :
      (v : Envelope (Option ℕ)) (raw : Bytes) (keys : K) (o : Option Decrypted) (m : Manager K)
      → came v
      → C.decode_base64 v.ciphertext ≡ some raw
      → C.decrypt keys raw ≡ o
      → Accounted m
      → Accounted (deliver C v o m)
  deliver-Accounted v raw keys none m c b e h = h
  deliver-Accounted v raw keys (some d) m c b e h =
      emit-Accounted (incoming (message_of v d)) m (v, raw, keys, d, c, b, e, refl) h

  second_try-Accounted :
      (v : Envelope (Option ℕ)) (raw : Bytes) (r : Bool × Manager K)
      → came v
      → C.decode_base64 v.ciphertext ≡ some raw
      → Accounted r.1
      → Accounted (second_try C v raw r)
  second_try-Accounted v raw (false, m) c b h = h
  second_try-Accounted v raw (true, m) c b h =
      deliver-Accounted v raw m.keys (C.decrypt m.keys raw) m c b refl h

  open-Accounted :
      (v : Envelope (Option ℕ)) (raw : Bytes) (o : Option Decrypted) (m : Manager K)
      → came v
      → C.decode_base64 v.ciphertext ≡ some raw
      → C.decrypt m.keys raw ≡ o
      → Accounted m
      → Accounted (open_envelope C v raw o m)
  unfolding resync_once
  open-Accounted v raw (some d) m c b e h = deliver-Accounted v raw m.keys (some d) m c b e h
  open-Accounted v raw none m c b e h =
      second_try-Accounted v raw (resync_once C m) c b (resync-Accounted C.resync_key m h)

  decoded-Accounted :
      (v : Envelope (Option ℕ)) (o : Option Bytes) (m : Manager K)
      → came v
      → C.decode_base64 v.ciphertext ≡ o
      → Accounted m
      → Accounted (decoded_envelope C v o m)
  decoded-Accounted v none m c b h = h
  decoded-Accounted v (some raw) m c b h = open-Accounted v raw (C.decrypt m.keys raw) m c b refl h

  receipt-Accounted :
      (r : ReceiptWire) (m : Manager K) → Accounted m → Accounted (handle_receipt C r m)
  unfolding handle_receipt
  receipt-Accounted r m h = elim (Bool-cases (eq_bytes r.status (codes "read"))) [
    | inl is_read ↦
        rw is_read (emit-Accounted (message_read (lookup [] r.id m.sent_to) r.id) m tt h)
    | inr unread ↦ rw unread (elim (Bool-cases (eq_bytes r.status (codes "expired"))) [
      | inl is_expired ↦ rw is_expired (emit-Accounted (message_expired r.id) m tt h)
      | inr unknown ↦ rw unknown h
    ])
  ]

  handle_all-Accounted :
      (evs : List (StreamEvent (Option ℕ))) (m : Manager K)
      → ((v : Envelope (Option ℕ)) → Memᴰ (envelope v) evs → came v)
      → Accounted m
      → Accounted (handle_all C evs m)
  unfolding handle_all handle_stream_event handle_envelope
  handle_all-Accounted [] m c h = h
  handle_all-Accounted (envelope v ∷ evs) m c h =
      handle_all-Accounted evs _ (λ w i. c w (Memᴰ.tail i))
        (decoded-Accounted v (C.decode_base64 v.ciphertext) m (c v (Memᴰ.head refl)) refl h)
  handle_all-Accounted (receipt r ∷ evs) m c h =
      handle_all-Accounted evs _ (λ w i. c w (Memᴰ.tail i)) (receipt-Accounted r m h)
  handle_all-Accounted (ping ∷ evs) m c h = handle_all-Accounted evs m (λ w i. c w (Memᴰ.tail i)) h

-- Each message that the engine reports out of a stream of events is what the keyring made of an envelope of
-- that stream: its address, id and timer are the envelope's, its text is the decrypted one, it counts as
-- authentic just when the signature is valid, and it then names the key that signed.
pub reported-Opened :
    {K : Type 0} (C : Config K) (evs : List (StreamEvent (Option ℕ))) (m : Manager K)
    (e : IncomingMessage)
    → m.events ≡ []
    → Memᴰ (incoming e) (handle_all C evs m).events
    → Opened C (λ v. Memᴰ (envelope v) evs) e
reported-Opened C evs m e empty at =
    All-at (HasOrigin C (λ v. Memᴰ (envelope v) evs)) (handle_all C evs m).events (incoming e)
      (handle_all-Accounted C (λ v. Memᴰ (envelope v) evs) evs m (λ v i. i) (rw empty tt)) at
