-- ===== src/Mime/Capped.antt =====
-- Lists that are cut at a length: adding to one that has reached it changes nothing.
use vayu_mail_mobile.Base.{
  ℕ, zero, suc, ◌≤◌, ◌<◌, ◌⊎◌, ◌≡◌, refl, sym, ap, List, [], ◌∷◌, ◌++◌, length, take, length-append,
  leb, leb→le, if◌then◌else◌, Bool-cases, inl, inr, arith,
}

nothing_below : {A : Type 0} (n : ℕ) → suc n ≤ 0 → A
nothing_below n h = let no_way : ⊥ = omega arith in elim no_way [ ]

take_full : {A : Type 0} (n : ℕ) (xs ys : List A) → n ≤ length xs → take n (xs ++ ys) ≡ take n xs
take_full zero xs ys h = refl
take_full (suc n) [] ys h = nothing_below n h
take_full (suc n) (x ∷ xs) ys h =
    let smaller : n ≤ length xs = omega arith in ap (λ t. x ∷ t) (take_full n xs ys smaller)

pub take_short : {A : Type 0} (n : ℕ) (xs : List A) → length xs ≤ n → take n xs ≡ xs
take_short zero [] h = refl
take_short (suc n) [] h = refl
take_short zero (x ∷ xs) h = nothing_below (length xs) h
take_short (suc n) (x ∷ xs) h =
    let smaller : length xs ≤ n = omega arith in ap (λ t. x ∷ t) (take_short n xs smaller)

length-take : {A : Type 0} (n : ℕ) (xs : List A) → length xs ≤ n ⊎ (length (take n xs) ≡ n)
length-take zero xs = inr refl
length-take (suc n) [] = inl (omega arith)
length-take (suc n) (x ∷ xs) = elim (length-take n xs) [
  | inl short ↦ inl (omega (arith, short))
  | inr full ↦ inr (omega (arith, full))
]

length-take_le : {A : Type 0} (n : ℕ) (xs : List A) → length (take n xs) ≤ length xs
length-take_le zero xs = omega arith
length-take_le (suc n) [] = omega arith
length-take_le (suc n) (x ∷ xs) = omega (arith, length-take_le n xs)

-- a list that has reached the cap stays as it is; any other has room for one more
pub when_full :
    {A : Type 0} (n : ℕ) (xs more r : List A)
    → r ≡ take n (xs ++ more)
    → (if leb n (length (take n xs)) then take n xs else r) ≡ take n (xs ++ more)
when_full n xs more r e = elim (Bool-cases (leb n (length (take n xs)))) [
  | inl full ↦
      let enough : n ≤ length xs =
        omega (arith, leb→le n (length (take n xs)) full, length-take_le n xs) in
      rw full (sym (take_full n xs more enough))
  | inr short ↦ rw short e
]

room :
    {A : Type 0} (n : ℕ) (xs : List A) (x : A)
    → length (take n xs) < n
    → take n xs ≡ xs
    → length (xs ++ x ∷ []) ≤ n
room n xs x below all =
    let under : length xs < n = rw all at below in omega (arith, length-append xs (x ∷ []), under)

pub append_one :
    {A : Type 0} (n : ℕ) (xs : List A) (x : A)
    → (if leb n (length (take n xs)) then take n xs else take n xs ++ x ∷ [])
      ≡ take n (xs ++ x ∷ [])
append_one n xs x = elim (Bool-cases (leb n (length (take n xs)))) [
  | inl full ↦
      let enough : n ≤ length xs =
        omega (arith, leb→le n (length (take n xs)) full, length-take_le n xs) in
      rw full (sym (take_full n xs (x ∷ []) enough))
  | inr short ↦
      let below : length (take n xs) < n = ground arith in
      let same : length xs ≤ n = elim (length-take n xs) [
        | inl le ↦ le
        | inr full ↦ omega (arith, below, full)
      ] in
      let all : take n xs ≡ xs = take_short n xs same in
      rw short (rw all (sym (take_short n (xs ++ x ∷ []) (room n xs x below all))))
]
