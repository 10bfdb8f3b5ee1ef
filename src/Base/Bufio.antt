-- ===== src/Base/Bufio.antt =====
-- bufio.Scanner over a text with the split function ScanLines, and texts written line by line. A
-- scanner also stops with an error at a line that does not fit its buffer: see its users.
use Prim.Native.Nat.{ℕ}
use mathlib.Core.Path.{◌≡◌, refl, ap, ap₂, ◌∙◌}
use mathlib.Core.Logic.{inl, inr}
use mathlib.Core.Bool.{false}
use mathlib.Core.List.{List, [], ◌∷◌, ◌++◌, map}
use native.Mathlib.Omega.{arith}
use vayu_mail_mobile.Base.Tests.{◌==◌, if◌then◌else◌, Bool-cases}
use vayu_mail_mobile.Base.Lists.{All}
use vayu_mail_mobile.Base.Text.{Bytes}

abbrev pub carriage_return : ℕ
carriage_return = 13

abbrev pub line_feed : ℕ
line_feed = 10

abbrev pub add_byte : ℕ → List Bytes → List Bytes
add_byte c [] = (c ∷ []) ∷ []
add_byte c (l ∷ ls) = (c ∷ l) ∷ ls

-- the lines of a text, without their line feeds; an empty last line is none
unfoldable pub raw_lines : Bytes → List Bytes
raw_lines [] = []
raw_lines (c ∷ s) = let rest = raw_lines s in if c == line_feed then [] ∷ rest else add_byte c rest

-- bufio.ScanLines drops one carriage return before the line feed
unfoldable pub drop_cr : Bytes → Bytes
drop_cr [] = []
drop_cr (c ∷ []) = if c == carriage_return then [] else c ∷ []
drop_cr (c ∷ d ∷ l) = c ∷ drop_cr (d ∷ l)

-- each line with CR LF behind it
unfoldable pub write_lines : List Bytes → Bytes
write_lines [] = []
write_lines (line ∷ ls) = line ++ carriage_return ∷ line_feed ∷ write_lines ls

abbrev pub lines : Bytes → List Bytes
lines s = map drop_cr (raw_lines s)

-- one line: no line feed
abbrev pub IsLine : Bytes → Type 0
IsLine = All (λ c. (c == line_feed) ≡ false)

raw_lines-append :
    (l rest : Bytes)
    → IsLine l
    → raw_lines (l ++ carriage_return ∷ line_feed ∷ rest)
      ≡ (l ++ carriage_return ∷ []) ∷ raw_lines rest
unfolding raw_lines
raw_lines-append [] rest h = refl
raw_lines-append (c ∷ l) rest (n, h) = rw (n, raw_lines-append l rest h)

drop_cr-append : (l : Bytes) → drop_cr (l ++ carriage_return ∷ []) ≡ l
unfolding drop_cr
drop_cr-append [] = refl
drop_cr-append (c ∷ []) = refl
drop_cr-append (c ∷ d ∷ l) = ap (λ t. c ∷ t) (drop_cr-append (d ∷ l))

pub lines-write_lines : (ls : List Bytes) → All IsLine ls → lines (write_lines ls) ≡ ls
unfolding write_lines
lines-write_lines [] h = unfold raw_lines in refl
lines-write_lines (l ∷ ls) (n, h) =
    rw (raw_lines-append l (write_lines ls) n)
      (ap₂ (λ a b. a ∷ b) (drop_cr-append l) (lines-write_lines ls h))

IsLine-add :
    (c : ℕ) (ls : List Bytes)
    → (c == line_feed) ≡ false
    → All IsLine ls
    → All IsLine (add_byte c ls)
IsLine-add c [] n h = ((n, tt), tt)
IsLine-add c (l ∷ ls) n (x, h) = ((n, x), h)

IsLine-raw_lines : (s : Bytes) → All IsLine (raw_lines s)
unfolding raw_lines
IsLine-raw_lines [] = tt
IsLine-raw_lines (c ∷ s) = elim (Bool-cases (c == line_feed)) [
  | inl feed ↦ rw feed (tt, IsLine-raw_lines s)
  | inr other ↦ rw other (IsLine-add c (raw_lines s) other (IsLine-raw_lines s))
]

IsLine-drop_cr : (l : Bytes) → IsLine l → IsLine (drop_cr l)
unfolding drop_cr
IsLine-drop_cr [] h = tt
IsLine-drop_cr (c ∷ []) h = ground arith
IsLine-drop_cr (c ∷ d ∷ l) (n, h) = (n, IsLine-drop_cr (d ∷ l) h)

IsLine-map : (ls : List Bytes) → All IsLine ls → All IsLine (map drop_cr ls)
IsLine-map [] h = tt
IsLine-map (l ∷ ls) (x, h) = (IsLine-drop_cr l x, IsLine-map ls h)

pub IsLine-lines : (s : Bytes) → All IsLine (lines s)
IsLine-lines s = IsLine-map (raw_lines s) (IsLine-raw_lines s)

pub raw_lines-write_lines :
    (ls : List Bytes)
    → All IsLine ls
    → raw_lines (write_lines ls) ≡ map (λ l. l ++ carriage_return ∷ []) ls
unfolding write_lines
raw_lines-write_lines [] h = unfold raw_lines in refl
raw_lines-write_lines (l ∷ ls) (n, h) =
    raw_lines-append l (write_lines ls) n
    ∙ ap (λ t. (l ++ carriage_return ∷ []) ∷ t) (raw_lines-write_lines ls h)
