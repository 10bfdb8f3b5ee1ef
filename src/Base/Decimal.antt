-- ===== src/Base/Decimal.antt =====
-- What the program uses of strconv: `Itoa`, `FormatInt`, `Atoi` and `ParseInt`, in base 10 and at
-- 64 bits.
use Prim.Native.Nat.{ℕ, zero, suc, ◌+◌, ◌-◌, ◌*◌, ◌/◌, ◌%◌, ◌^◌, ◌≤◌, ◌<◌}
use mathlib.Core.Path.{◌≡◌, ◌∙◌}
use mathlib.Core.Logic.{inl, inr, ◌≢◌}
use mathlib.Core.Bool.{Bool, true, false, ◌||◌}
use mathlib.Core.List.{[], ◌∷◌, ◌++◌, append_assoc, append-nil}
use native.Mathlib.Omega.{arith}
use vayu_mail_mobile.Base.Tests.{ltb, leb, ◌==◌, if◌then◌else◌, Bool-cases}
use vayu_mail_mobile.Base.Integers.{ℤ, pos, negsuc, InInt64}
use vayu_mail_mobile.Base.Text.{Bytes}

-- the decimal digits of n; n rounds are enough, since each divides by ten
pub digits : ℕ → ℕ → Bytes
digits zero n = []
digits (suc f) n =
    let rest = digits f (n / 10) in
    if ltb n 10 then (b'0' + n) ∷ [] else rest ++ (b'0' + n % 10) ∷ []

unfoldable pub itoa : ℤ → Bytes
unfolding digits
itoa (pos n) = digits (suc n) n
itoa (negsuc n) = b'-' ∷ digits (suc (suc n)) (suc n)

-- strconv's two errors; out of range comes with the nearest int64
pub data Parsed : Type 0 where
  value : ℤ → Parsed
  syntax : Parsed
  out_of_range : ℤ → Parsed

pub data Scanned : Type 0 where
  total : ℕ → Scanned
  bad_digit too_large : Scanned

-- ParseUint: the first bad digit or the first overflow ends the scan
unfoldable pub scan : Bytes → ℕ → Scanned
scan [] n = total n
scan (c ∷ s) n =
    let rest = scan s (n * 10 + (c - b'0')) in
    if ltb c b'0' || ltb b'9' c
    then bad_digit
    else if leb (2 ^ 64) (n * 10 + (c - b'0'))
    then too_large
    else rest

abbrev signed : Bool → Scanned → Parsed
signed neg bad_digit = syntax
signed true too_large = out_of_range (negsuc (2 ^ 63 - 1))
signed false too_large = out_of_range (pos (2 ^ 63 - 1))
signed true (total zero) = value (pos 0)
signed true (total (suc n)) =
    if ltb n (2 ^ 63) then value (negsuc n) else out_of_range (negsuc (2 ^ 63 - 1))
signed false (total n) = if ltb n (2 ^ 63) then value (pos n) else out_of_range (pos (2 ^ 63 - 1))

abbrev scan_number : Bool → Bytes → Parsed
scan_number neg [] = syntax
scan_number neg (c ∷ s) = signed neg (scan (c ∷ s) 0)

unfoldable pub parse_int : Bytes → Parsed
unfolding scan
parse_int [] = syntax
parse_int (c ∷ s) =
    if c == b'-'
    then scan_number true s
    else if c == b'+'
    then scan_number false s
    else scan_number false (c ∷ s)

-- `n, _ := strconv.Atoi(raw)`: the value with its error ignored
unfoldable pub atoi_or : Bytes → ℤ
unfolding parse_int
atoi_or raw = elim (parse_int raw) [ value n ↦ n | syntax ↦ pos 0 | out_of_range n ↦ n ]

scan-digits : (f n : ℕ) (t : Bytes) → n < f → n < 2 ^ 64 → scan (digits f n ++ t) 0 ≡ scan t n
unfolding scan digits
scan-digits zero n t h l = absurd (omega arith)
scan-digits (suc f) n t h l = elim (Bool-cases (ltb n 10)) [
  | inl small ↦ rw small (ground arith)
  | inr big ↦ rw big (
      rw append_assoc
        (scan-digits f (n / 10) ((b'0' + n % 10) ∷ t) (ground arith) (omega arith) ∙ ground arith))
]

abbrev HeadIsDigit : Bytes → Type 0
HeadIsDigit [] = ⊥
HeadIsDigit (c ∷ s) = (b'0' ≤ c) × (c ≤ b'9')

HeadIsDigit-append : (s t : Bytes) → HeadIsDigit s → HeadIsDigit (s ++ t)
HeadIsDigit-append [] t h = absurd h
HeadIsDigit-append (c ∷ s) t h = h

HeadIsDigit-digits : (f n : ℕ) → n < f → HeadIsDigit (digits f n)
unfolding digits
HeadIsDigit-digits zero n h = absurd (omega arith)
HeadIsDigit-digits (suc f) n h = elim (Bool-cases (ltb n 10)) [
  | inl small ↦ rw small (ground arith)
  | inr big ↦
      rw big
        (HeadIsDigit-append (digits f (n / 10)) _ (HeadIsDigit-digits f (n / 10) (ground arith)))
]

parse_int_digits :
    (s : Bytes) (n : ℕ)
    → HeadIsDigit s
    → scan s 0 ≡ total n
    → n < 2 ^ 63
    → parse_int s ≡ value (pos n)
unfolding parse_int
parse_int_digits [] n h e l = absurd h
parse_int_digits (c ∷ s) n h e l = ground arith

parse_int_minus :
    (s : Bytes) (n : ℕ)
    → HeadIsDigit s
    → scan s 0 ≡ total n
    → parse_int (b'-' ∷ s) ≡ signed true (total n)
unfolding parse_int
parse_int_minus [] n h e = absurd h
parse_int_minus (c ∷ s) n h e = ground arith

scan_all : (n : ℕ) → n < 2 ^ 64 → scan (digits (suc n) n) 0 ≡ total n
unfolding scan
scan_all n l = rw (← append-nil (digits (suc n) n)) (scan-digits (suc n) n [] (omega arith) l)

signed-suc : (n : ℕ) → n < 2 ^ 63 → signed true (total (suc n)) ≡ value (negsuc n)
signed-suc n h = ground arith

-- Every int64 that is stored as text is read back as it was.
pub parse_int-itoa : (z : ℤ) → InInt64 z → parse_int (itoa z) ≡ value z
unfolding itoa
parse_int-itoa (pos n) h =
    parse_int_digits (digits (suc n) n) n (HeadIsDigit-digits (suc n) n (omega arith))
      (scan_all n (omega arith)) h
parse_int-itoa (negsuc n) h =
    parse_int_minus (digits (suc (suc n)) (suc n)) (suc n)
      (HeadIsDigit-digits (suc (suc n)) (suc n) (omega arith)) (scan_all (suc n) (omega arith))
    ∙ signed-suc n h

pub atoi_or-itoa : (z : ℤ) → InInt64 z → atoi_or (itoa z) ≡ z
unfolding atoi_or
atoi_or-itoa z h = ground (arith, parse_int-itoa z h)

pub itoa-ne-nil : (n : ℕ) → itoa (pos n) ≢ []
unfolding itoa
itoa-ne-nil n e = rw e at (HeadIsDigit-digits (suc n) n (omega arith))
