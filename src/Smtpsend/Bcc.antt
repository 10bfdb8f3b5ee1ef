-- ===== src/Smtpsend/Bcc.antt =====
-- internal/mail/smtpsend/outbox.go, `stripBcc`: the copy of a stored message that goes on the wire.
pub mod Fields
use vayu_mail_mobile.Base.Bufio.{carriage_return, line_feed, raw_lines, drop_cr, write_lines}
use vayu_mail_mobile.Base.{
  ℕ, zero, suc, ◌+◌, ◌^◌, ◌≡◌, refl, Bool, true, false, ◌&&◌, ◌||◌, not, Option, none, some, List,
  [], ◌∷◌, ◌++◌, map, Bytes, codes, eq_bytes, lower, length, take, leb, ltb, ◌==◌, if◌then◌else◌,
}

-- the scanner's buffer, 1 MiB: a longer line is an error
abbrev pub max_line : ℕ
max_line = 2 ^ 20

unfoldable pub any_too_long : List Bytes → Bool
any_too_long [] = false
any_too_long (l ∷ ls) = leb max_line (length l) || any_too_long ls

-- `equalFoldPrefix(line, "bcc:")` and the length test before it
unfoldable pub is_bcc : Bytes → Bool
is_bcc line = leb 4 (length line) && eq_bytes (map lower (take 4 line)) (codes "bcc:")

-- the line continues a folded header
abbrev pub is_folded : Bytes → Bool
is_folded [] = false
is_folded (c ∷ l) = c == 32 || c == 9

abbrev pub is_empty : Bytes → Bool
is_empty [] = true
is_empty (c ∷ l) = false

-- one round of the loop: whether the line is written, `inHeader` and `skipping`
pub strip_step : Bytes → Bool → Bool → Bool × Bool × Bool
strip_step line in_header skipping =
    if in_header
    then (if is_empty line
        then (true, false, false)
        else if skipping && is_folded line
        then (false, true, true)
        else (if is_bcc line then (false, true, true) else (true, true, false)))
    else (true, false, skipping)

abbrev pub put_line : Bool → Bytes → List Bytes → List Bytes
put_line true line ls = line ∷ ls
put_line false line ls = ls

-- the lines that the loop writes
unfoldable pub written : List Bytes → Bool → Bool → List Bytes
unfolding strip_step
written [] in_header skipping = []
written (line ∷ ls) in_header skipping =
    let t = strip_step line in_header skipping in put_line t.0 line (written ls t.1 t.2)

-- none is the scanner's error
unfoldable pub strip_bcc : Bytes → Option Bytes
unfolding written write_lines any_too_long
strip_bcc raw =
    if any_too_long (raw_lines raw)
    then none
    else some (write_lines (written (map drop_cr (raw_lines raw)) true false))
