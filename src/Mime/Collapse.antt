-- ===== src/Mime/Collapse.antt =====
-- internal/mail/mime/richspans.go, collapseSpace.
pub mod Spaces
use vayu_mail_mobile.Base.{ℕ, Bool, true, false, ◌&&◌, ◌||◌, [], ◌∷◌, Bytes, ◌==◌, if◌then◌else◌}

-- strings.ReplaceAll of CRLF by LF
unfoldable pub replace_crlf : Bytes → Bytes
replace_crlf [] = []
replace_crlf (c ∷ []) = c ∷ []
replace_crlf (c ∷ d ∷ s) =
    let rest = replace_crlf (d ∷ s) in if c == 13 && d == 10 then rest else c ∷ rest

abbrev pub is_gap : ℕ → Bool
is_gap c = c == 32 || c == 9 || c == 10

abbrev pub spaced : Bool → Bytes → Bytes
spaced true s = 32 ∷ s
spaced false s = s

-- the loop of collapseSpace; `space` says that a gap is pending
unfoldable pub collapse_from : Bool → Bytes → Bytes
collapse_from space [] = spaced space []
collapse_from space (c ∷ s) = elim (is_gap c) [
  | true ↦ collapse_from true s
  | false ↦ spaced space (c ∷ collapse_from false s)
]

unfoldable pub collapse_space : Bytes → Bytes
collapse_space s = collapse_from false (replace_crlf s)
