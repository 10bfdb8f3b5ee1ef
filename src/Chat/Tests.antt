-- ===== src/Chat/Tests.antt =====
-- An event stream with a cut-off frame.
use vayu_mail_mobile.Base.{
  upper, ℕ, ◌≡◌, refl, none, some, List, [], ◌∷◌, ◌++◌, Bytes, codes, eq_bytes, trim_space, arith,
}
use vayu_mail_mobile.Chat.SafetyNumber.{safety_number}
use vayu_mail_mobile.Chat.Stream.{Codec, receipt, ping, parse_sse, build_event}
use vayu_mail_mobile.Chat.Stream.Written.{Written, with_lf, with_crlf, broken_off}
use vayu_mail_mobile.Chat.Stream.Frames.{Frame, stream_lines, events_of, parse_sse_frames}

-- a codec that reads any text as a receipt with that id
abbrev toy : Codec ℕ
toy = record {
  unmarshal_envelope = λ s. none;
  unmarshal_receipt = λ s. some (record { id = s; status = codes "read" });
  parse_time = λ s. 0;
}

abbrev frames : List Frame
frames =
    record { name = codes "receipt"; pieces = codes "a" ∷ codes "b" ∷ [] }
    ∷ record { name = codes "ping"; pieces = [] }
    ∷ []

abbrev cut : List Bytes
cut = codes "event: ping" ∷ []

-- a plain line feed behind some lines, a carriage return too behind others, and a broken end
abbrev body : Bytes
body = codes "event: receipt\r\ndata: a\ndata: b\r\n\nevent: ping\n\r\nevent: ping"

body-Written : Written (stream_lines frames ++ cut) body
body-Written = with_crlf (ground arith) (
    with_lf (ground arith) (
      with_crlf (ground arith) (
        with_lf tt
          (with_lf (ground arith) (with_crlf tt (broken_off (ground arith) (omega arith)))))))

parse_sse_frames_example : parse_sse toy body ≡ events_of toy frames
unfolding trim_space
parse_sse_frames_example =
    parse_sse_frames toy frames cut body
      (
        record { name_trimmed = refl; pieces_trimmed = (refl, (refl, tt)) },
        (record { name_trimmed = refl; pieces_trimmed = tt }, tt),
      )
      (omega arith) (omega arith) body-Written

two_events :
    events_of toy frames ≡ receipt (record { id = codes "ab"; status = codes "read" }) ∷ ping ∷ []
unfolding build_event eq_bytes
two_events = refl

grouped : safety_number (codes "ab:cd ef") ≡ codes "ABCD EF"
unfolding safety_number upper
grouped = refl
