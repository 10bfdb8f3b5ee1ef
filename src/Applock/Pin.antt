-- ===== src/Applock/Pin.antt =====
-- applock.go, `validPIN`.
use vayu_mail_mobile.Base.{
  ℕ, ◌≡◌, ◌≤◌, ◌↔◌, refl, Bool, true, false, ◌||◌, [], ◌∷◌, Bytes, length, All, ltb, arith,
  if◌then◌else◌,
}

-- the loop over the bytes
digits_only : Bytes → Bool
digits_only [] = true
digits_only (c ∷ s) = let rest = digits_only s in if ltb c b'0' || ltb b'9' c then false else rest

unfoldable pub valid_pin : Bytes → Bool
unfolding digits_only
valid_pin pin = if ltb (length pin) 4 || ltb 12 (length pin) then false else digits_only pin

abbrev pub IsDigit : ℕ → Type 0
IsDigit c = (b'0' ≤ c) × (c ≤ b'9')

digits_only-All : (s : Bytes) → digits_only s ≡ true → All IsDigit s
unfolding digits_only
digits_only-All [] h = tt
digits_only-All (c ∷ s) h = ground (arith, digits_only-All s)

All-digits_only : (s : Bytes) → All IsDigit s → digits_only s ≡ true
unfolding digits_only
All-digits_only [] h = refl
All-digits_only (c ∷ s) h = ground (arith, All-digits_only s)

-- A PIN is accepted exactly when it has four to twelve bytes and each is an ASCII digit.
pub valid_pin_iff :
    (pin : Bytes)
    → (valid_pin pin ≡ true) ↔ ((4 ≤ length pin) × (length pin ≤ 12) × All IsDigit pin)
unfolding valid_pin
valid_pin_iff pin =
    (λ h. ground (arith, digits_only-All pin), λ h. ground (arith, All-digits_only pin h.2))
