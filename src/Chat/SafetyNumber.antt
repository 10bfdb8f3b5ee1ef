-- ===== src/Chat/SafetyNumber.antt =====
-- internal/chat/manager_ops.go, `SafetyNumber`: a fingerprint as groups of four for comparison by eye.
use vayu_mail_mobile.Base.{
  ℕ, suc, ◌%◌, ◌≡◌, ◌↔◌, refl, sym, ap, ◌∙◌, Bool, true, false, not, ◌||◌, List, [], ◌∷◌, ◌++◌, map,
  keep, All, Bytes, upper, ◌==◌, if◌then◌else◌, arith, Bool-cases, inl, inr,
}

-- without spaces and colons, in upper case
unfoldable pub normal : Bytes → Bytes
unfolding upper
normal fp = map upper (keep (λ c. not (c == 32 || c == 58)) fp)

unfoldable pub groups : Bytes → List Bytes
groups [] = []
groups (a ∷ []) = (a ∷ []) ∷ []
groups (a ∷ b ∷ []) = (a ∷ b ∷ []) ∷ []
groups (a ∷ b ∷ c ∷ []) = (a ∷ b ∷ c ∷ []) ∷ []
groups (a ∷ b ∷ c ∷ d ∷ rest) = (a ∷ b ∷ c ∷ d ∷ []) ∷ groups rest

-- what stands before the i-th group
unfoldable pub separator : ℕ → Bytes
separator i = if i == 0 then [] else if i % 5 == 0 then 10 ∷ [] else 32 ∷ []

unfoldable pub write_groups : ℕ → List Bytes → Bytes
unfolding separator
write_groups i [] = []
write_groups i (g ∷ gs) = separator i ++ (g ++ write_groups (suc i) gs)

unfoldable pub safety_number : Bytes → Bytes
unfolding normal groups write_groups
safety_number fp = write_groups 0 (groups (normal fp))

abbrev is_mark : ℕ → Bool
is_mark c = not (c == 32 || c == 10)

keep-append : (xs ys : Bytes) → keep is_mark (xs ++ ys) ≡ keep is_mark xs ++ keep is_mark ys
keep-append [] ys = refl
keep-append (x ∷ xs) ys = elim (Bool-cases (is_mark x)) [
  | inl kept ↦ rw kept (ap (λ t. x ∷ t) (keep-append xs ys))
  | inr cut ↦ rw cut (keep-append xs ys)
]

strip-separator : (i : ℕ) → keep is_mark (separator i) ≡ []
unfolding separator
strip-separator i = elim (Bool-cases (i == 0)) [
  | inl first ↦ rw first refl
  | inr later ↦ elim (Bool-cases (i % 5 == 0)) [
    | inl line ↦ rw (later, line) refl
    | inr space ↦ rw (later, space) refl
  ]
]

-- the bytes of all the groups
abbrev joined : List Bytes → Bytes
joined [] = []
joined (g ∷ gs) = g ++ joined gs

strip-write_groups :
    (i : ℕ) (gs : List Bytes) → keep is_mark (write_groups i gs) ≡ keep is_mark (joined gs)
unfolding write_groups
strip-write_groups i [] = refl
strip-write_groups i (g ∷ gs) =
    keep-append (separator i) (g ++ write_groups (suc i) gs)
    ∙ ap (λ t. t ++ keep is_mark (g ++ write_groups (suc i) gs)) (strip-separator i)
    ∙ keep-append g (write_groups (suc i) gs)
    ∙ ap (λ t. keep is_mark g ++ t) (strip-write_groups (suc i) gs)
    ∙ sym (keep-append g (joined gs))

joined-groups : (s : Bytes) → joined (groups s) ≡ s
unfolding groups
joined-groups [] = refl
joined-groups (a ∷ []) = refl
joined-groups (a ∷ b ∷ []) = refl
joined-groups (a ∷ b ∷ c ∷ []) = refl
joined-groups (a ∷ b ∷ c ∷ d ∷ rest) = ap (λ t. a ∷ b ∷ c ∷ d ∷ t) (joined-groups rest)

-- the fingerprint is on one line
abbrev pub OneLine : Bytes → Type 0
OneLine fp = All (λ c. (c == 10) ≡ false) fp

upper_mark : (c : ℕ) → (c == 10) ≡ false → (c == 32 || c == 58) ≡ false → is_mark (upper c) ≡ true
unfolding upper
upper_mark c n s = ground arith

strip-normal : (fp : Bytes) → OneLine fp → keep is_mark (normal fp) ≡ normal fp
unfolding normal
strip-normal [] o = refl
strip-normal (c ∷ fp) (n, o) = elim (Bool-cases (c == 32 || c == 58)) [
  | inl gap ↦ rw gap (strip-normal fp o)
  | inr mark ↦ rw (mark, upper_mark c n mark) (ap (λ t. upper c ∷ t) (strip-normal fp o))
]

strip-safety_number : (fp : Bytes) → OneLine fp → keep is_mark (safety_number fp) ≡ normal fp
unfolding safety_number
strip-safety_number fp o =
    strip-write_groups 0 (groups (normal fp))
    ∙ ap (keep is_mark) (joined-groups (normal fp))
    ∙ strip-normal fp o

-- Two fingerprints without line breaks show the same safety number exactly if they are the same but for
-- letter case, spaces and colons.
pub safety_number_iff :
    (fp fp' : Bytes)
    → OneLine fp
    → OneLine fp'
    → (safety_number fp ≡ safety_number fp') ↔ (normal fp ≡ normal fp')
unfolding safety_number
safety_number_iff fp fp' o o' = (
  λ e. sym (strip-safety_number fp o) ∙ ap (keep is_mark) e ∙ strip-safety_number fp' o',
  λ e. ap (λ s. write_groups 0 (groups s)) e,
)
