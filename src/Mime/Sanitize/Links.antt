-- ===== src/Mime/Sanitize/Links.antt =====
-- internal/mail/mime/sanitize.go: the links that the scheme allowlist lets through.
use mathlib.Core.List.{map-append}
use vayu_mail_mobile.Base.{
  until_split, ℕ, ◌≡◌, ◌≢◌, ◌⊎◌, refl, sym, ap, ◌∙◌, Bool, ◌||◌, none, some, [], ◌∷◌, ◌++◌,
  append_assoc, map, Bytes, codes, eq_bytes, eq_bytes_sound, lower, trim_space, ◌==◌, ==_iff,
  Bool-cases, inl, inr, arith,
}
use vayu_mail_mobile.Mime.Sanitize.{
  is_letter, is_scheme_mark, before_fragment, scheme_from, get_scheme, url_scheme, allow_scheme,
  safe_href,
}

-- the text begins with the scheme and a colon, letter case aside
abbrev pub IsScheme : Bytes → Bytes → Type 0
IsScheme scheme href = (rest : Bytes) × (map lower href ≡ scheme ++ b':' ∷ rest)

abbrev pub IsLink : Bytes → Type 0
IsLink href = IsScheme (codes "https") href ⊎ IsScheme (codes "mailto") href

scheme_split :
    (seen s : Bytes)
    → scheme_from seen s ≢ []
    → (rest : Bytes) × (seen ++ s ≡ scheme_from seen s ++ b':' ∷ rest)
unfolding scheme_from
scheme_split seen [] h = elim (h refl) [ ]
scheme_split seen (c ∷ s) h = elim (Bool-cases (is_letter c || is_scheme_mark c)) [
  | inl mark ↦
      let longer = scheme_split (seen ++ c ∷ []) s (rw mark at h) in
      rw mark (longer.0, sym (append_assoc seen (c ∷ []) s) ∙ longer.1)
  | inr other ↦ elim (Bool-cases (c == b':')) [
    | inl colon ↦
        let f : c ≡ b':' = (==_iff c b':').0 colon in
        rw other (rw colon (s, ap (λ t. seen ++ t ∷ s) f))
    | inr none_left ↦ let empty = rw none_left at (rw other at h) in elim (empty refl) [ ]
  ]
]

get_scheme_split :
    (s : Bytes) → get_scheme s ≢ [] → (rest : Bytes) × (s ≡ get_scheme s ++ b':' ∷ rest)
unfolding get_scheme
get_scheme_split [] h = elim (h refl) [ ]
get_scheme_split (c ∷ s) h = elim (Bool-cases (is_letter c)) [
  | inl letter ↦ rw letter (scheme_split (c ∷ []) s (rw letter at h))
  | inr other ↦ let empty = rw other at h in elim (empty refl) [ ]
]

lower-lower : (c : ℕ) → lower (lower c) ≡ lower c
unfolding lower
lower-lower c = ground arith

lower_twice : (s : Bytes) → map lower (map lower s) ≡ map lower s
lower_twice [] = refl
lower_twice (c ∷ s) = rw (lower-lower c) (ap (λ t. lower c ∷ t) (lower_twice s))

-- the scheme of url.Parse stands at the front of the text
front-IsScheme :
    (raw scheme : Bytes)
    → scheme ≢ []
    → map lower (map lower (get_scheme (before_fragment raw))) ≡ scheme
    → IsScheme scheme raw
unfolding lower
front-IsScheme raw scheme some_scheme e =
    let same : map lower (get_scheme (before_fragment raw)) ≡ scheme =
      sym (lower_twice (get_scheme (before_fragment raw))) ∙ e in
    let named : get_scheme (before_fragment raw) ≢ [] =
      λ empty. some_scheme (sym same ∙ ap (λ t. map lower t) empty) in
    let (after_scheme, front) = get_scheme_split (before_fragment raw) named in
    let (fragment, whole) = until_split (λ c. c == b'#') raw in
    (
      map lower (after_scheme ++ fragment),
      ap (λ t. map lower t) (whole ∙ ap (λ t. t ++ fragment) front)
          ∙ ap (λ t. map lower t)
              (append_assoc (get_scheme (before_fragment raw)) (b':' ∷ after_scheme) fragment)
          ∙ map-append lower (get_scheme (before_fragment raw)) (b':' ∷ after_scheme ++ fragment)
          ∙ ap (λ t. t ++ b':' ∷ map lower (after_scheme ++ fragment)) same,
    )

https_text : codes "https" ≢ []
https_text e = cc

mailto_text : codes "mailto" ≢ []
mailto_text e = cc

abbrev Link : Bytes → Bytes → Type 0
Link raw href = (href ≡ []) ⊎ ((href ≡ raw) × IsLink href)

allowed_none : (raw : Bytes) → allow_scheme raw none ≡ []
unfolding allow_scheme
allowed_none raw = refl

allow_scheme-Link :
    (raw : Bytes)
    → Link raw (allow_scheme raw (some (map lower (get_scheme (before_fragment raw)))))
unfolding allow_scheme
allow_scheme-Link raw =
    let scheme = map lower (map lower (get_scheme (before_fragment raw))) in
    elim (Bool-cases (eq_bytes scheme (codes "https"))) [
      | inl https ↦ rw https (
          inr (
            refl,
            inl (
                front-IsScheme raw (codes "https") https_text
                  (eq_bytes_sound scheme (codes "https") https)),
          ))
      | inr n1 ↦ rw n1 (elim (Bool-cases (eq_bytes scheme (codes "mailto"))) [
        | inl mailto ↦ rw mailto (
            inr (
              refl,
              inr (
                  front-IsScheme raw (codes "mailto") mailto_text
                    (eq_bytes_sound scheme (codes "mailto") mailto)),
            ))
        | inr n2 ↦ rw n2 (inl refl)
      ])
    ]

-- For every attribute value, what `safe_href` returns is empty, or it is the trimmed value itself
-- and begins with "https:" or "mailto:", letter case aside.
pub safe_href-IsLink :
    (parses : Bytes → Bool) (raw : Bytes)
    → (safe_href parses raw ≡ [])
      ⊎ ((safe_href parses raw ≡ trim_space raw) × IsLink (safe_href parses raw))
unfolding safe_href url_scheme
safe_href-IsLink parses raw = elim (Bool-cases (parses (trim_space raw))) [
  | inl read ↦ rw read (allow_scheme-Link (trim_space raw))
  | inr refused ↦ rw refused (inl (allowed_none (trim_space raw)))
]
