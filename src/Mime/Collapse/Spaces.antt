-- ===== src/Mime/Collapse/Spaces.antt =====
-- internal/mail/mime/richspans.go, collapseSpace: the white space that is left.
use vayu_mail_mobile.Base.{
  ℕ, ◌≡◌, refl, sym, ap, ◌∙◌, Bool, true, false, ◌&&◌, ◌||◌, [], ◌∷◌, Bytes, ◌==◌, Bool-cases, inl,
  inr, not, arith,
}
use vayu_mail_mobile.Mime.Collapse.{replace_crlf, is_gap, spaced, collapse_from, collapse_space}

-- each gap is one space: no tab, no line feed, no two spaces in a row
unfoldable pub single : Bytes → Bool
single [] = true
single (c ∷ []) = not (is_gap c) || c == 32
single (c ∷ d ∷ s) =
    let rest = single (d ∷ s) in (not (is_gap c) || (c == 32 && not (is_gap d))) && rest

collapse_at_gap :
    (space : Bool) (c : ℕ) (s : Bytes)
    → is_gap c ≡ true
    → collapse_from space (c ∷ s) ≡ collapse_from true s
unfolding collapse_from
collapse_at_gap space c s g =
    ap
      (λ b. elim b [
        | true ↦ collapse_from true s
        | false ↦ spaced space (c ∷ collapse_from false s)
      ])
      g

collapse_at_letter :
    (space : Bool) (c : ℕ) (s : Bytes)
    → is_gap c ≡ false
    → collapse_from space (c ∷ s) ≡ spaced space (c ∷ collapse_from false s)
unfolding collapse_from
collapse_at_letter space c s g =
    ap
      (λ b. elim b [
        | true ↦ collapse_from true s
        | false ↦ spaced space (c ∷ collapse_from false s)
      ])
      g

letter_single : (c : ℕ) (s : Bytes) → is_gap c ≡ false → single s ≡ true → single (c ∷ s) ≡ true
unfolding single
letter_single c [] g h = rw g refl
letter_single c (d ∷ s) g h = rw g h

spaced-single :
    (space : Bool) (c : ℕ) (s : Bytes)
    → is_gap c ≡ false
    → single (c ∷ s) ≡ true
    → single (spaced space (c ∷ s)) ≡ true
unfolding single
spaced-single true c s g h = rw g h
spaced-single false c s g h = h

collapse_from-single : (space : Bool) (s : Bytes) → single (collapse_from space s) ≡ true
unfolding collapse_from single
collapse_from-single true [] = refl
collapse_from-single false [] = refl
collapse_from-single space (c ∷ s) = elim (Bool-cases (is_gap c)) [
  | inl gap ↦ rw (collapse_at_gap space c s gap) (collapse_from-single true s)
  | inr letter ↦ rw (collapse_at_letter space c s letter) (
      spaced-single space c (collapse_from false s) letter
        (letter_single c (collapse_from false s) letter (collapse_from-single false s)))
]

single_tail : (c : ℕ) (s : Bytes) → single (c ∷ s) ≡ true → single s ≡ true
unfolding single
single_tail c [] h = refl
single_tail c (d ∷ s) h = ground arith

single_head :
    (c d : ℕ) (s : Bytes)
    → single (c ∷ d ∷ s) ≡ true
    → is_gap c ≡ true
    → (c ≡ 32) × (is_gap d ≡ false)
unfolding single
single_head c d s h g = ground arith

last_gap : (c : ℕ) → single (c ∷ []) ≡ true → is_gap c ≡ true → c ≡ 32
unfolding single
last_gap c h g = ground arith

mutual
  unfolding collapse_from

  collapse_gap :
      (c : ℕ) (s : Bytes) → single (c ∷ s) ≡ true → is_gap c ≡ true → collapse_from true s ≡ c ∷ s
  collapse_gap c [] h g = ap (λ d. d ∷ []) (sym (last_gap c h g))
  collapse_gap c (d ∷ s) h g =
      let (blank, letter) = single_head c d s h g in
      collapse_at_letter true d s letter
      ∙ ap (λ t. 32 ∷ d ∷ t) (collapse_from_same s (single_tail d s (single_tail c (d ∷ s) h)))
      ∙ ap (λ e. e ∷ d ∷ s) (sym blank)

  collapse_from_same : (s : Bytes) → single s ≡ true → collapse_from false s ≡ s
  collapse_from_same [] h = refl
  collapse_from_same (c ∷ s) h = elim (Bool-cases (is_gap c)) [
    | inl gap ↦ collapse_at_gap false c s gap ∙ collapse_gap c s h gap
    | inr letter ↦
        collapse_at_letter false c s letter
        ∙ ap (λ t. c ∷ t) (collapse_from_same s (single_tail c s h))
  ]

replace_crlf_same : (s : Bytes) → single s ≡ true → replace_crlf s ≡ s
unfolding replace_crlf single
replace_crlf_same [] h = refl
replace_crlf_same (c ∷ []) h = refl
replace_crlf_same (c ∷ d ∷ s) h =
    let rest = replace_crlf_same (d ∷ s) (single_tail c (d ∷ s) h) in
    let no_pair : (c == 13 && d == 10) ≡ false = ground arith in rw no_pair (ap (λ t. c ∷ t) rest)

-- For every text, `collapse_space` leaves no tab, no line feed and no two spaces in a row, and a
-- second call changes nothing.
pub collapse_space-single :
    (s : Bytes)
    → (single (collapse_space s) ≡ true) × (collapse_space (collapse_space s) ≡ collapse_space s)
unfolding collapse_space
collapse_space-single s =
    let one = collapse_from-single false (replace_crlf s) in
    (
      one,
      ap (λ t. collapse_from false t) (replace_crlf_same (collapse_from false (replace_crlf s)) one)
          ∙ collapse_from_same (collapse_from false (replace_crlf s)) one,
    )
