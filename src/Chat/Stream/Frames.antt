-- ===== src/Chat/Stream/Frames.antt =====
-- The event stream as a server writes it, and as stream.go reads it.
use vayu_mail_mobile.Base.{
  ◌+◌, ◌≡◌, ◌<◌, Option, List, [], ◌∷◌, ◌++◌, append_assoc, append-nil, none, some, Bytes, codes,
  length, trim_space, has_prefix, All, arith, refl, ap, ◌∙◌,
}
use vayu_mail_mobile.Chat.Stream.Written.{Written, Written-read}
use vayu_mail_mobile.Chat.Stream.{
  Codec, StreamEvent, build_event, send_event, read_field, read_events, parse_sse, max_sse_event,
}

-- an event as the server sends it: its name, and its data in pieces
pub record Frame : Type 0 where
  pub name : Bytes
  pub pieces : List Bytes

abbrev pub joined : List Bytes → Bytes
joined [] = []
joined (p ∷ ps) = p ++ joined ps

abbrev pub data_lines : List Bytes → List Bytes
data_lines [] = []
data_lines (p ∷ ps) = (codes "data: " ++ p) ∷ data_lines ps

abbrev pub frame_lines : Frame → List Bytes
frame_lines f = (codes "event: " ++ f.name) ∷ data_lines f.pieces ++ [] ∷ []

abbrev pub stream_lines : List Frame → List Bytes
stream_lines [] = []
stream_lines (f ∷ fs) = frame_lines f ++ stream_lines fs

-- a text that is its own trimmed form behind the space that the server writes
abbrev pub IsTrimmed : Bytes → Type 0
IsTrimmed s = trim_space (32 ∷ s) ≡ s

pub record IsClean (f : Frame) : Type 0 where
  pub name_trimmed : IsTrimmed f.name
  pub pieces_trimmed : All IsTrimmed f.pieces

read_name :
    (s name text : Bytes) → IsTrimmed s → read_field (codes "event: " ++ s) name text ≡ (s, text)
unfolding read_field has_prefix
read_name s name text h = rw h

read_piece :
    (s name text : Bytes)
    → IsTrimmed s
    → read_field (codes "data: " ++ s) name text ≡ (name, text ++ s)
unfolding read_field has_prefix
read_piece s name text h = rw h

module _ {T : Type 0} (C : Codec T) where
  read_data :
      (ps ls : List Bytes) (name text : Bytes)
      → All IsTrimmed ps
      → read_events C (data_lines ps ++ ls) name text ≡ read_events C ls name (text ++ joined ps)
  unfolding read_events
  read_data [] ls name text h = rw append-nil
  read_data (p ∷ ps) ls name text (t, h) =
      rw (read_piece p name text t) (read_data ps ls name (text ++ p) h ∙ rw append_assoc)

  -- the events that a list of frames stands for
  abbrev pub events_of : List Frame → List (StreamEvent T)
  events_of [] = []
  events_of (f ∷ fs) = send_event C (build_event C f.name (joined f.pieces)) (events_of fs)

  send_event-append :
      (o : Option (StreamEvent T)) (es fs : List (StreamEvent T))
      → send_event C o (es ++ fs) ≡ send_event C o es ++ fs
  send_event-append none es fs = refl
  send_event-append (some e) es fs = refl

  read_frame :
      (f : Frame) (ls : List Bytes)
      → IsClean f
      → read_events C (frame_lines f ++ ls) [] []
        ≡ send_event C (build_event C f.name (joined f.pieces)) (read_events C ls [] [])
  unfolding read_events
  read_frame f ls clean =
      let body = data_lines f.pieces in
      ap (λ t. read_events C ((body ++ [] ∷ []) ++ ls) t.0 t.1)
        (read_name f.name [] [] clean.name_trimmed)
      ∙ ap (λ l. read_events C l f.name []) (append_assoc body ([] ∷ []) ls)
      ∙ read_data f.pieces ([] ∷ ls) f.name [] clean.pieces_trimmed

  read_frames :
      (fs : List Frame) (ls : List Bytes)
      → All IsClean fs
      → read_events C (stream_lines fs ++ ls) [] [] ≡ events_of fs ++ read_events C ls [] []
  read_frames [] ls h = refl
  read_frames (f ∷ fs) ls (clean, h) =
      let ev = build_event C f.name (joined f.pieces) in
      ap (λ l. read_events C l [] []) (append_assoc (frame_lines f) (stream_lines fs) ls)
      ∙ read_frame f (stream_lines fs ++ ls) clean
      ∙ ap (send_event C ev) (read_frames fs ls h)
      ∙ send_event-append ev (events_of fs) (read_events C ls [] [])

  -- lines without a blank one end no event
  unfinished :
      (ls : List Bytes) (name text : Bytes)
      → All (λ l. 0 < length l) ls
      → read_events C ls name text ≡ []
  unfolding read_events
  unfinished [] name text h = refl
  unfinished ([] ∷ ls) name text (n, h) = absurd (omega arith)
  unfinished ((c ∷ l) ∷ ls) name text (n, h) = unfinished ls _ _ h

  -- What a server sends as frames, each a trimmed name, trimmed pieces of data and a blank line, and then
  -- any lines of a frame that is cut off, is read as exactly the events that the frames stand for, in
  -- their order: the pieces of data are joined, a frame that is no known event is left out, and
  -- nothing of the unfinished frame shows. Each line ends in LF or in CR LF, as the server likes, and
  -- has no other carriage return; the last one may break off without either. Lines are shorter than the
  -- 256 KiB buffer.
  pub parse_sse_frames :
      (fs : List Frame) (cut : List Bytes) (body : Bytes)
      → All IsClean fs
      → All (λ l. 0 < length l) cut
      → All (λ l. length l + 1 < max_sse_event) (stream_lines fs ++ cut)
      → Written (stream_lines fs ++ cut) body
      → parse_sse C body ≡ events_of fs
  unfolding parse_sse
  parse_sse_frames fs cut body clean partial short sent =
      rw (Written-read (stream_lines fs ++ cut) body short sent)
        (read_frames fs cut clean ∙ rw (unfinished cut [] [] partial, append-nil))
