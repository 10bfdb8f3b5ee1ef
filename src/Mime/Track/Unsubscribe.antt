-- ===== src/Mime/Track/Unsubscribe.antt =====
-- internal/mail/mime/track.go, FirstUnsubscribeTarget: each result is the first of its kind.
use vayu_mail_mobile.Base.{
  ◌≡◌, refl, true, false, not, ap, ◌∙◌, ◌&&◌, List, [], ◌∷◌, map, Bytes, eq_bytes, has_prefix,
  if◌then◌else◌, Bool-cases, inl, inr, split, arith,
}
use vayu_mail_mobile.Mime.Track.{
  trim_part, is_mailto, is_https, mailto_address, take_part, take_parts, first_unsubscribe_target,
}

-- the first address of a mailto part that is not empty
unfoldable pub first_mailto : List Bytes → Bytes
first_mailto [] = []
first_mailto (part ∷ parts) =
    let rest = first_mailto parts in
    if is_mailto part && not (eq_bytes (mailto_address part) []) then mailto_address part else rest

-- the first part that is an https address
unfoldable pub first_https : List Bytes → Bytes
first_https [] = []
first_https (part ∷ parts) = let rest = first_https parts in if is_https part then part else rest

abbrev or_first : Bytes → Bytes → Bytes
or_first [] s = s
or_first (c ∷ s) _ = c ∷ s

one_scheme : (part : Bytes) → is_mailto part ≡ true → is_https part ≡ false
unfolding has_prefix
one_scheme [] m = cc
one_scheme (c ∷ part) m = ground arith

or_first_if : (a rest : Bytes) → or_first a rest ≡ (if not (eq_bytes a []) then a else rest)
unfolding eq_bytes
or_first_if [] rest = refl
or_first_if (c ∷ s) rest = refl

https_part : (part : Bytes) → is_https part ≡ true → (rest : Bytes) → or_first part rest ≡ part
unfolding has_prefix
https_part [] h rest = cc
https_part (c ∷ s) h rest = refl

take_part-mailto :
    (part : Bytes) (parts : List Bytes) (mailto url : Bytes)
    → or_first (take_part part (mailto, url)).0 (first_mailto parts)
      ≡ or_first mailto (
          if is_mailto part && not (eq_bytes (mailto_address part) [])
          then mailto_address part
          else first_mailto parts)
unfolding take_part eq_bytes
take_part-mailto part parts (c ∷ s) url = elim (Bool-cases (is_mailto part)) [
  | inl m ↦ rw m (rw (one_scheme part m) refl)
  | inr n ↦ rw n (elim (Bool-cases (is_https part && eq_bytes url [])) [
    | inl h ↦ rw h refl
    | inr k ↦ rw k refl
  ])
]
take_part-mailto part parts [] url = elim (Bool-cases (is_mailto part)) [
  | inl m ↦ rw m (or_first_if (mailto_address part) (first_mailto parts))
  | inr n ↦ rw n (elim (Bool-cases (is_https part && eq_bytes url [])) [
    | inl h ↦ rw h refl
    | inr k ↦ rw k refl
  ])
]

take_part-https :
    (part : Bytes) (parts : List Bytes) (mailto url : Bytes)
    → or_first (take_part part (mailto, url)).1 (first_https parts)
      ≡ or_first url (if is_https part then part else first_https parts)
unfolding take_part eq_bytes
take_part-https part parts mailto (c ∷ s) =
    elim (Bool-cases (is_mailto part && eq_bytes mailto [])) [
      | inl m ↦ rw m refl
      | inr n ↦ rw n (elim (Bool-cases (is_https part)) [ inl h ↦ rw h refl | inr k ↦ rw k refl ])
    ]
take_part-https part parts mailto [] = elim (Bool-cases (is_mailto part)) [
  | inl m ↦ rw m (
      rw (one_scheme part m) (elim (Bool-cases (eq_bytes mailto [])) [
        | inl empty ↦ rw empty refl
        | inr taken ↦ rw taken refl
      ]))
  | inr n ↦ rw n (elim (Bool-cases (is_https part)) [
    | inl h ↦ rw h (https_part part h (first_https parts))
    | inr k ↦ rw k refl
  ])
]

or_nothing : (s : Bytes) → or_first s [] ≡ s
or_nothing [] = refl
or_nothing (c ∷ s) = refl

take_parts-first :
    (parts : List Bytes) (mailto url : Bytes)
    → take_parts parts (mailto, url) ≡ (
      or_first mailto (first_mailto (map trim_part parts)),
      or_first url (first_https (map trim_part parts)),
    )
unfolding take_parts first_mailto first_https
take_parts-first [] mailto url = rw (or_nothing mailto) (rw (or_nothing url) refl)
take_parts-first (part ∷ parts) mailto url =
    let found = take_part (trim_part part) (mailto, url) in
    take_parts-first parts found.0 found.1
    ∙ ap (λ m. (m, or_first found.1 (first_https (map trim_part parts))))
        (take_part-mailto (trim_part part) (map trim_part parts) mailto url)
    ∙ ap (λ u. (or_first mailto (first_mailto (trim_part part ∷ map trim_part parts)), u))
        (take_part-https (trim_part part) (map trim_part parts) mailto url)

-- For every header value, `first_unsubscribe_target` returns the first address that is not empty of
-- a mailto part, and the first part that is an https address; an empty text where there is none.
pub first_unsubscribe_target-first :
    (header : Bytes)
    → first_unsubscribe_target header ≡ (
      first_mailto (map trim_part (split header b',')),
      first_https (map trim_part (split header b',')),
    )
unfolding first_unsubscribe_target
first_unsubscribe_target-first header = take_parts-first (split header b',') [] []
