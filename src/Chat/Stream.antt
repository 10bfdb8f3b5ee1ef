-- ===== src/Chat/Stream.antt =====
-- internal/chat/stream.go, `parseSSE` and `buildEvent`: Server-Sent Events, for a context that is not
-- cancelled. `T` stands for time.Time.
pub mod Frames
pub mod Written
use vayu_mail_mobile.Base.{
  ℕ, ℤ, ◌*◌, ◌^◌, Bool, true, false, Option, none, some, List, [], ◌∷◌, ◌++◌, map, Bytes, codes,
  eq_bytes, length, drop, trim_space, has_prefix, leb, if◌then◌else◌,
}
use vayu_mail_mobile.Base.Bufio.{raw_lines, drop_cr}

-- maxSSEEvent, the scanner's buffer
abbrev pub max_sse_event : ℕ
max_sse_event = 256 * 2 ^ 10

-- the JSON of an envelope, its times still texts
pub record EnvelopeWire : Type 0 where
  pub id : Bytes
  pub from : Bytes
  pub ciphertext : Bytes
  pub created_at : Bytes
  pub expires_at : Bytes
  pub burn_seconds : ℤ
  pub mode : Bytes

pub record ReceiptWire : Type 0 where
  pub id : Bytes
  pub status : Bytes

pub record Envelope (T : Type 0) : Type 0 where
  pub id : Bytes
  pub from : Bytes
  pub ciphertext : Bytes
  pub created_at : T
  pub expires_at : T
  pub burn_seconds : ℤ
  pub mode : Bytes

pub data StreamEvent (T : Type 0) : Type 0 where
  envelope : Envelope T → StreamEvent T
  receipt : ReceiptWire → StreamEvent T
  ping : StreamEvent T

-- encoding/json on the two shapes, and time.Parse, which gives the zero time on an error
pub record Codec (T : Type 0) : Type 0 where
  pub unmarshal_envelope : Bytes → Option EnvelopeWire
  pub unmarshal_receipt : Bytes → Option ReceiptWire
  pub parse_time : Bytes → T

abbrev pub is_blank : Bytes → Bool
is_blank [] = true
is_blank (c ∷ s) = false

-- the lines before the first that does not fit the buffer
unfoldable pub fitting_lines : List Bytes → List Bytes
fitting_lines [] = []
fitting_lines (l ∷ ls) =
    let rest = fitting_lines ls in if leb max_sse_event (length l) then [] else l ∷ rest

-- `name` and `data` after a line that does not end an event
unfoldable pub read_field : Bytes → Bytes → Bytes → Bytes × Bytes
read_field line name text =
    if has_prefix (codes "event:") line
    then (trim_space (drop 6 line), text)
    else if has_prefix (codes "data:") line
    then (name, text ++ trim_space (drop 5 line))
    else (name, text)

module _ {T : Type 0} (C : Codec T) where
  abbrev pub envelope_event : Option EnvelopeWire → Option (StreamEvent T)
  envelope_event none = none
  envelope_event (some w) =
      if is_blank w.id
      then none
      else some (
          envelope (record {
            id = w.id;
            from = w.from;
            ciphertext = w.ciphertext;
            created_at = C.parse_time w.created_at;
            expires_at = C.parse_time w.expires_at;
            burn_seconds = w.burn_seconds;
            mode = w.mode;
          }))

  abbrev pub receipt_event : Option ReceiptWire → Option (StreamEvent T)
  receipt_event none = none
  receipt_event (some w) = if is_blank w.id then none else some (receipt w)

  unfoldable pub build_event : Bytes → Bytes → Option (StreamEvent T)
  build_event name text =
      if eq_bytes name (codes "envelope")
      then envelope_event (C.unmarshal_envelope text)
      else if eq_bytes name (codes "receipt")
      then receipt_event (C.unmarshal_receipt text)
      else if eq_bytes name (codes "ping")
      then some ping
      else none

  abbrev pub send_event : Option (StreamEvent T) → List (StreamEvent T) → List (StreamEvent T)
  send_event none events = events
  send_event (some ev) events = ev ∷ events

  -- the loop: a blank line dispatches
  unfoldable pub read_events : List Bytes → Bytes → Bytes → List (StreamEvent T)
  unfolding build_event read_field
  read_events [] name text = []
  read_events ([] ∷ ls) name text = send_event (build_event name text) (read_events ls [] [])
  read_events ((c ∷ l) ∷ ls) name text =
      let t = read_field (c ∷ l) name text in read_events ls t.0 t.1

  unfoldable pub parse_sse : Bytes → List (StreamEvent T)
  unfolding read_events
  parse_sse body = read_events (map drop_cr (fitting_lines (raw_lines body))) [] []
