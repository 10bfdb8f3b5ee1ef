-- ===== src/Base/Integers.antt =====
-- Signed integers: `negsuc n` is -(n + 1). Go's `int` and `int64` wrap around at 64 bits.
use Prim.Native.Nat.{ℕ, ◌+◌, ◌-◌, ◌%◌, ◌^◌, ◌≤◌, ◌<◌}
use mathlib.Core.Path.{◌≡◌}
use native.Mathlib.Omega.{arith}
use vayu_mail_mobile.Base.Tests.{ltb, if◌then◌else◌}

pub data ℤ : Type 0 where
  pos : ℕ → ℤ
  negsuc : ℕ → ℤ

abbrev pub int64_half : ℕ
int64_half = 2 ^ 63

abbrev pub int64_mod : ℕ
int64_mod = 2 ^ 64

-- the two's complement bits of a value, and back
abbrev pub to_bits : ℤ → ℕ
to_bits (pos n) = n % int64_mod
to_bits (negsuc n) = int64_mod - 1 - n % int64_mod

abbrev pub of_bits : ℕ → ℤ
of_bits b = if ltb b int64_half then pos b else negsuc (int64_mod - 1 - b)

-- x + k and x - k for a small constant k, in int64 arithmetic
pub add64 : ℤ → ℕ → ℤ
add64 x k = of_bits ((to_bits x + k) % int64_mod)

pub sub64 : ℤ → ℕ → ℤ
sub64 x k = of_bits ((to_bits x + (int64_mod - k)) % int64_mod)

abbrev pub InInt64 : ℤ → Type 0
InInt64 (pos n) = n < int64_half
InInt64 (negsuc n) = n < int64_half

pub add64-pos : (n k : ℕ) → n + k < int64_half → add64 (pos n) k ≡ pos (n + k)
unfolding add64
add64-pos n k h = ground arith

pub sub64-pos : (n k : ℕ) → k ≤ n → n < int64_half → sub64 (pos n) k ≡ pos (n - k)
unfolding sub64
sub64-pos n k h l = ground arith

pub sub64-neg : (n k : ℕ) → n < k → k < int64_half → sub64 (pos n) k ≡ negsuc (k - n - 1)
unfolding sub64
sub64-neg n k h l = ground arith

pub sub64-negsuc : (n k : ℕ) → n + k < int64_half → sub64 (negsuc n) k ≡ negsuc (n + k)
unfolding sub64
sub64-negsuc n k h = ground arith
