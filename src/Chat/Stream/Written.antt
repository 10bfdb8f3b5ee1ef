-- ===== src/Chat/Stream/Written.antt =====
-- internal/chat/stream.go, the scanner of `parseSSE`: lines as a server ends them.
use vayu_mail_mobile.Base.{
  ℕ, ◌+◌, ◌≡◌, ◌<◌, false, ◌||◌, ◌==◌, List, [], ◌∷◌, ◌++◌, map, Bytes, length, length-append, All,
  leb, arith, refl, ap, ◌∙◌,
}
use vayu_mail_mobile.Base.Bufio.{raw_lines, drop_cr, carriage_return, line_feed}
use vayu_mail_mobile.Chat.Stream.{fitting_lines, max_sse_event}

-- a text without the two bytes that end lines
abbrev pub IsPlain : Bytes → Type 0
IsPlain = All (λ c. (c == line_feed || c == carriage_return) ≡ false)

-- the lines as the server sends them: each ends in LF or in CR LF, and the last one may break off
pub data Written : List Bytes → Bytes → Type 0 where
  nothing : Written [] []
  broken_off : {line : Bytes} → IsPlain line → 0 < length line → Written (line ∷ []) line
  with_lf :
      {line : Bytes} {rest : List Bytes} {s : Bytes}
      → IsPlain line
      → Written rest s
      → Written (line ∷ rest) (line ++ line_feed ∷ s)
  with_crlf :
      {line : Bytes} {rest : List Bytes} {s : Bytes}
      → IsPlain line
      → Written rest s
      → Written (line ∷ rest) (line ++ carriage_return ∷ line_feed ∷ s)

drop_cr-IsPlain : (l : Bytes) → IsPlain l → drop_cr l ≡ l
unfolding drop_cr
drop_cr-IsPlain [] h = refl
drop_cr-IsPlain (c ∷ []) (h, _) = ground (arith, h)
drop_cr-IsPlain (c ∷ d ∷ l) (_, h) = ap (λ t. c ∷ t) (drop_cr-IsPlain (d ∷ l) h)

drop_cr-last : (l : Bytes) → drop_cr (l ++ carriage_return ∷ []) ≡ l
unfolding drop_cr
drop_cr-last [] = refl
drop_cr-last (c ∷ []) = refl
drop_cr-last (c ∷ d ∷ l) = ap (λ t. c ∷ t) (drop_cr-last (d ∷ l))

no_feed : (c : ℕ) → (c == line_feed || c == carriage_return) ≡ false → (c == line_feed) ≡ false
no_feed c h = ground arith

raw_lines-lf : (l s : Bytes) → IsPlain l → raw_lines (l ++ line_feed ∷ s) ≡ l ∷ raw_lines s
unfolding raw_lines
raw_lines-lf [] s h = refl
raw_lines-lf (c ∷ l) s (n, h) = rw (no_feed c n, raw_lines-lf l s h)

raw_lines-crlf :
    (l s : Bytes)
    → IsPlain l
    → raw_lines (l ++ carriage_return ∷ line_feed ∷ s) ≡ (l ++ carriage_return ∷ []) ∷ raw_lines s
unfolding raw_lines
raw_lines-crlf [] s h = refl
raw_lines-crlf (c ∷ l) s (n, h) = rw (no_feed c n, raw_lines-crlf l s h)

raw_lines-end : (c : ℕ) (l : Bytes) → IsPlain (c ∷ l) → raw_lines (c ∷ l) ≡ (c ∷ l) ∷ []
unfolding raw_lines
raw_lines-end c [] (n, h) = rw (no_feed c n) refl
raw_lines-end c (d ∷ l) (n, h) = rw (no_feed c n, raw_lines-end d l h)

-- what the reader makes of the raw lines
abbrev kept : List Bytes → List Bytes
kept ls = map drop_cr (fitting_lines ls)

kept-cons :
    (raw : Bytes) (ls : List Bytes) (line : Bytes)
    → length raw < max_sse_event
    → drop_cr raw ≡ line
    → kept (raw ∷ ls) ≡ line ∷ kept ls
unfolding fitting_lines
kept-cons raw ls line short e =
    let fits : leb max_sse_event (length raw) ≡ false = ground arith in
    rw fits (ap (λ t. t ∷ kept ls) e)

-- short lines are read as they were sent
pub Written-read :
    (ls : List Bytes) (body : Bytes)
    → All (λ l. length l + 1 < max_sse_event) ls
    → Written ls body
    → map drop_cr (fitting_lines (raw_lines body)) ≡ ls
Written-read [] body short nothing = unfold raw_lines fitting_lines in refl
Written-read (l ∷ []) body short (broken_off {line = []} plain some_bytes) = absurd (omega arith)
Written-read (l ∷ []) body (x, short) (broken_off {line = c ∷ t} plain some_bytes) =
    ap kept (raw_lines-end c t plain)
    ∙ kept-cons (c ∷ t) [] (c ∷ t) (omega arith) (drop_cr-IsPlain (c ∷ t) plain)
    ∙ (unfold fitting_lines in refl)
Written-read (l ∷ ls) body (x, short) (with_lf {line = t} {s = s} plain w) =
    ap kept (raw_lines-lf t s plain)
    ∙ kept-cons t (raw_lines s) t (omega arith) (drop_cr-IsPlain t plain)
    ∙ ap (λ r. t ∷ r) (Written-read ls s short w)
Written-read (l ∷ ls) body (x, short) (with_crlf {line = t} {s = s} plain w) =
    let len = length-append t (carriage_return ∷ []) in
    ap kept (raw_lines-crlf t s plain)
    ∙ kept-cons (t ++ carriage_return ∷ []) (raw_lines s) t (omega (arith, len)) (drop_cr-last t)
    ∙ ap (λ r. t ∷ r) (Written-read ls s short w)
