-- ===== src/Crypto/MasterKey/Agreement.antt =====
-- All providers of internal/crypto/sealed.go come to hold the same master key.
use vayu_mail_mobile.Base.{
  ℕ, ◌≡◌, refl, sym, ◌∙◌, ap, Option, none, some, List, [], ◌∷◌, Bytes, length, ◌==◌, if◌then◌else◌,
  Bool-cases, inl, inr,
}
use vayu_mail_mobile.Crypto.MasterKey.{
  Phase, idle, missing, beaten, prepared, holding, World, Answer, success, failure, becomes,
  read_key, first_read, second_read, link, advance, interleave, start_with,
}

-- a key that is held is the one in the file
abbrev pub Agreed : World → Type 0
Agreed w = (j : ℕ) (key : Bytes) → w.phase j ≡ holding key → w.file ≡ some key

becomes-Agreed :
    (i : ℕ) (p : Phase) (w : World)
    → Agreed w
    → ((key : Bytes) → p ≡ holding key → w.file ≡ some key)
    → Agreed (becomes i p w)
becomes-Agreed i p w h n j key e = elim (Bool-cases (i == j)) [
  | inl same ↦ n key (rw same at e)
  | inr other ↦ h j key (rw other at e)
]

read_held : (key : Bytes) (k : Bytes) → read_key key ≡ holding k → key ≡ k
read_held key k e = elim (Bool-cases (length key == 32)) [
  | inl whole ↦ let f : holding key ≡ holding k = rw whole at e in cc
  | inr cut ↦ cc (rw cut at e)
]

first_held : (o : Option Bytes) (k : Bytes) → first_read o ≡ holding k → o ≡ some k
first_held none k e = cc
first_held (some key) k e = ap some (read_held key k e)

second_held : (o : Option Bytes) (k : Bytes) → second_read o ≡ holding k → o ≡ some k
second_held none k e = cc
second_held (some key) k e = ap some (read_held key k e)

link-Agreed :
    (i : ℕ) (key : Bytes) (o : Option Bytes) (w : World)
    → w.file ≡ o
    → Agreed w
    → Agreed (link i key o w)
link-Agreed i key none w f h j k e = elim (Bool-cases (i == j)) [
  | inl same ↦ let g : holding key ≡ holding k = rw same at e in cc
  | inr other ↦ cc (h j k (rw other at e))
]
link-Agreed i key (some old) w f h j k e = becomes-Agreed i beaten w h (λ k e. cc) j k e

random-prepared :
    (random k : Bytes) → (if length random == 32 then prepared random else idle) ≡ holding k → ⊥
random-prepared random k e = elim (Bool-cases (length random == 32)) [
  | inl whole ↦ cc (rw whole at e)
  | inr cut ↦ cc (rw cut at e)
]

advance-Agreed : (i : ℕ) (a : Answer) (p : Phase) (w : World) → Agreed w → Agreed (advance i a p w)
unfolding advance
advance-Agreed i (success r) (holding key) w h = h
advance-Agreed i failure (holding key) w h = h
advance-Agreed i failure idle w h = h
advance-Agreed i failure missing w h = becomes-Agreed i idle w h (λ k e. cc)
advance-Agreed i failure beaten w h = becomes-Agreed i idle w h (λ k e. cc)
advance-Agreed i failure (prepared key) w h = becomes-Agreed i beaten w h (λ k e. cc)
advance-Agreed i (success r) idle w h = becomes-Agreed i (first_read w.file) w h (first_held w.file)
advance-Agreed i (success r) missing w h =
    becomes-Agreed i (if length r == 32 then prepared r else idle) w h
      (λ k e. absurd (random-prepared r k e))
advance-Agreed i (success r) (prepared key) w h = link-Agreed i key w.file w refl h
advance-Agreed i (success r) beaten w h =
    becomes-Agreed i (second_read w.file) w h (second_held w.file)

interleave-Agreed : (turns : List (ℕ × Answer)) (w : World) → Agreed w → Agreed (interleave turns w)
unfolding interleave
interleave-Agreed [] w h = h
interleave-Agreed ((i, a) ∷ turns) w h =
    interleave-Agreed turns (advance i a (w.phase i) w) (advance-Agreed i a (w.phase i) w h)

-- the file is never replaced
link-file :
    (i : ℕ) (key old : Bytes) (o : Option Bytes) (w : World)
    → w.file ≡ o
    → w.file ≡ some old
    → (link i key o w).file ≡ some old
link-file i key old none w f g = cc
link-file i key old (some k) w f g = g

advance-file :
    (i : ℕ) (a : Answer) (p : Phase) (w : World) (old : Bytes)
    → w.file ≡ some old
    → (advance i a p w).file ≡ some old
unfolding advance
advance-file i (success r) (holding key) w old g = g
advance-file i failure (holding key) w old g = g
advance-file i failure idle w old g = g
advance-file i failure missing w old g = g
advance-file i failure beaten w old g = g
advance-file i failure (prepared key) w old g = g
advance-file i (success r) idle w old g = g
advance-file i (success r) missing w old g = g
advance-file i (success r) (prepared key) w old g = link-file i key old w.file w refl g
advance-file i (success r) beaten w old g = g

interleave-file :
    (turns : List (ℕ × Answer)) (w : World) (old : Bytes)
    → w.file ≡ some old
    → (interleave turns w).file ≡ some old
unfolding interleave
interleave-file [] w old g = g
interleave-file ((i, a) ∷ turns) w old g =
    interleave-file turns (advance i a (w.phase i) w) old (advance-file i a (w.phase i) w old g)

-- On a file system with hard links, however the steps of any number of providers interleave, and whichever
-- of them fail, two
-- providers that hold a key hold the same one, the file holds it too, and it does so whatever follows.
pub keys_agree :
    (file : Option Bytes) (turns more : List (ℕ × Answer)) (i j : ℕ) (key key' : Bytes)
    → (interleave turns (start_with file)).phase i ≡ holding key
    → (interleave turns (start_with file)).phase j ≡ holding key'
    → (key ≡ key')
      × ((interleave turns (start_with file)).file ≡ some key)
      × ((interleave more (interleave turns (start_with file))).file ≡ some key)
unfolding start_with
keys_agree file turns more i j key key' hi hj =
    let w = interleave turns (start_with file) in
    let h = interleave-Agreed turns (start_with file) (λ j k e. cc) in
    let fi = h i key hi in
    let fj = h j key' hj in
    let same : some key ≡ some key' = sym fi ∙ fj in (cc, fi, interleave-file more w key fi)
