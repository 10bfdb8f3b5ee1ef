-- ===== src/Mime/Parse/Armored.antt =====
-- internal/mail/mime/parse.go: the ciphertext that Parse keeps.
use vayu_mail_mobile.Base.{
  split_and, ℕ, ◌≡◌, ◌⊎◌, refl, sym, ap, ◌∙◌, true, Option, none, some, [], ◌∷◌, ◌++◌, Bytes,
  ==_iff, ◌==◌, has_prefix, Bool-cases, inl, inr,
}
use vayu_mail_mobile.Mime.Parse.{
  Parsed, begin_pgp, end_pgp, from_first, with_head, through_first, or_empty, through_end,
  extract_inline_pgp, is_encrypted,
}

-- an armoured block: the opening delimiter stands where it begins, and it ends with the closing one
abbrev pub IsArmored : Bytes → Type 0
IsArmored block =
    ((rest : Bytes) × (has_prefix begin_pgp (block ++ rest) ≡ true))
    × ((front : Bytes) × (block ≡ front ++ end_pgp))

from_first_lem : (part s t : Bytes) → from_first part s ≡ some t → has_prefix part t ≡ true
unfolding from_first
from_first_lem part [] t h = cc
from_first_lem part (c ∷ s) t h = elim (Bool-cases (has_prefix part (c ∷ s))) [
  | inl here ↦
      let e : some (c ∷ s) ≡ some t = rw here at h in let f : c ∷ s ≡ t = cc in rw (sym f) here
  | inr later ↦ from_first_lem part s t (rw later at h)
]

ends_later :
    (part : Bytes) (c : ℕ) (o : Option Bytes) (t : Bytes)
    → ((u : Bytes) → o ≡ some u → (front : Bytes) × (u ≡ front ++ part))
    → with_head o (λ u. c ∷ u) ≡ some t
    → (front : Bytes) × (t ≡ front ++ part)
ends_later part c none t h e = let no_way : ⊥ = cc in elim no_way [ ]
ends_later part c (some u) t h e =
    let (front, g) = h u refl in let f : c ∷ u ≡ t = cc in (c ∷ front, sym f ∙ ap (λ v. c ∷ v) g)

through_first_lem :
    (part s t : Bytes) → through_first part s ≡ some t → (front : Bytes) × (t ≡ front ++ part)
unfolding through_first
through_first_lem part [] t h = let no_way : ⊥ = cc in elim no_way [ ]
through_first_lem part (c ∷ s) t h = elim (Bool-cases (has_prefix part (c ∷ s))) [
  | inl here ↦ let e : some part ≡ some t = rw here at h in let f : part ≡ t = cc in ([], sym f)
  | inr later ↦
      ends_later part c (through_first part s) t (λ u e. through_first_lem part s u e)
        (rw later at h)
]

prefix_split : (part s : Bytes) → has_prefix part s ≡ true → (rest : Bytes) × (s ≡ part ++ rest)
unfolding has_prefix
prefix_split [] s h = (s, refl)
prefix_split (a ∷ part) [] h = let no_way : ⊥ = cc in elim no_way [ ]
prefix_split (a ∷ part) (c ∷ s) h =
    let (same, tail) = split_and (a == c) (has_prefix part s) h in
    let (rest, e) = prefix_split part s tail in
    let f : a ≡ c = (==_iff a c).0 same in
    (rest, ap (λ t. c ∷ t) e ∙ ap (λ d. d ∷ part ++ rest) (sym f))

goes_on :
    (c : ℕ) (s : Bytes) (o : Option Bytes) (t : Bytes)
    → ((u : Bytes) → o ≡ some u → (rest : Bytes) × (s ≡ u ++ rest))
    → with_head o (λ u. c ∷ u) ≡ some t
    → (rest : Bytes) × (c ∷ s ≡ t ++ rest)
goes_on c s none t h e = let no_way : ⊥ = cc in elim no_way [ ]
goes_on c s (some u) t h e =
    let (rest, g) = h u refl in
    let f : c ∷ u ≡ t = cc in (rest, ap (λ v. c ∷ v) g ∙ ap (λ v. v ++ rest) f)

through_first_prefix :
    (part s t : Bytes) → through_first part s ≡ some t → (rest : Bytes) × (s ≡ t ++ rest)
unfolding through_first
through_first_prefix part [] t h = let no_way : ⊥ = cc in elim no_way [ ]
through_first_prefix part (c ∷ s) t h = elim (Bool-cases (has_prefix part (c ∷ s))) [
  | inl here ↦
      let e : some part ≡ some t = rw here at h in
      let f : part ≡ t = cc in
      let (rest, g) = prefix_split part (c ∷ s) here in (rest, g ∙ ap (λ v. v ++ rest) f)
  | inr later ↦
      goes_on c s (through_first part s) t (λ u e. through_first_prefix part s u e) (rw later at h)
]

-- empty, or an armoured block
abbrev Kept : Bytes → Type 0
Kept block = (block ≡ []) ⊎ IsArmored block

ended-Kept :
    (s : Bytes) (o : Option Bytes)
    → has_prefix begin_pgp s ≡ true
    → through_first end_pgp s ≡ o
    → Kept (or_empty o)
ended-Kept s none h e = inl refl
ended-Kept s (some t) h e =
    let (rest, whole) = through_first_prefix end_pgp s t e in
    inr ((rest, rw whole at h), through_first_lem end_pgp s t e)

found-Kept :
    (text : Bytes) (o : Option Bytes)
    → from_first begin_pgp text ≡ o
    → Kept (or_empty (through_end o))
found-Kept text none e = inl refl
found-Kept text (some s) e =
    ended-Kept s (through_first end_pgp s) (from_first_lem begin_pgp text s e) refl

pub extract_inline_pgp-Kept : (text : Bytes) → Kept (extract_inline_pgp text)
unfolding extract_inline_pgp
extract_inline_pgp-Kept text = found-Kept text (from_first begin_pgp text) refl

-- a block is kept of a message that is encrypted only
abbrev pub IsSound : Parsed → Type 0
IsSound p =
    (p.encrypted_block ≡ []) ⊎ ((is_encrypted p.pgp_status ≡ true) × IsArmored p.encrypted_block)

pub sound_with :
    (status block : Bytes)
    → is_encrypted status ≡ true
    → Kept block
    → (block ≡ []) ⊎ ((is_encrypted status ≡ true) × IsArmored block)
sound_with status block e (inl empty) = inl empty
sound_with status block e (inr armored) = inr (e, armored)
