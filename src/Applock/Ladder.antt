-- ===== src/Applock/Ladder.antt =====
-- applock.go, `lockoutAfter`: how long a wrong answer locks the app. Durations are nanoseconds.
use native.Mathlib.Decide.{dec_lt}
use native.Mathlib.Nat.{pow-suc, pow-le-pow_right}
use vayu_mail_mobile.Base.{
  ℕ, zero, suc, ◌-◌, ◌*◌, ◌%◌, ◌^◌, ◌≡◌, ◌≤◌, ◌<◌, refl, min, ℤ, pos, negsuc, sub64, sub64-pos,
  sub64-neg, sub64-negsuc, int64_mod, int64_half, ltb, leb, arith, if◌then◌else◌,
}

abbrev pub second : ℕ
second = 10 ^ 9

abbrev pub free_attempts : ℕ
free_attempts = 5

abbrev pub lockout_base : ℕ
lockout_base = 30 * second

abbrev pub lockout_max : ℕ
lockout_max = 15 * 60 * second

-- `lockoutBase << steps`, capped, for steps that are not negative
ladder_step : ℕ → ℕ
ladder_step steps =
    if leb 5 steps
    then lockout_max
    else (let d = lockout_base * 2 ^ steps % int64_mod in
        if ltb lockout_max d then lockout_max else d)

abbrev ladder : ℤ → ℕ
ladder (pos steps) = ladder_step steps
ladder (negsuc _) = 0

unfoldable pub lockout_after : ℤ → ℕ
unfolding ladder_step
lockout_after failures = ladder (sub64 (sub64 failures free_attempts) 1)

-- the schedule that the comments promise, with no bit tricks
abbrev pub schedule : ℕ → ℕ
schedule n = if leb n 5 then 0 else min (30 * second * 2 ^ (n - 6)) (900 * second)

one-le-pow : (k : ℕ) → 1 ≤ 2 ^ k
one-le-pow zero = omega arith
one-le-pow (suc k) = rw pow-suc (omega (arith, one-le-pow k))

pow_five : (k : ℕ) → 32 ≤ 2 ^ suc (suc (suc (suc (suc k))))
pow_five k = rw (pow-suc, pow-suc, pow-suc, pow-suc, pow-suc) (omega (arith, one-le-pow k))

ladder_step-min : (k : ℕ) → ladder_step k ≡ min (30 * second * 2 ^ k) (900 * second)
unfolding ladder_step
ladder_step-min zero = refl
ladder_step-min (suc zero) = refl
ladder_step-min (suc (suc zero)) = refl
ladder_step-min (suc (suc (suc zero))) = refl
ladder_step-min (suc (suc (suc (suc zero)))) = refl
ladder_step-min (suc (suc (suc (suc (suc k))))) = ground (arith, pow_five k)

-- the rung of a count, in int64 arithmetic
rung :
    (n : ℕ)
    → n < int64_half
    → ladder (sub64 (sub64 (pos n) 5) 1) ≡ ladder (if leb n 5 then negsuc (5 - n) else pos (n - 6))
rung n h = elim (dec_lt n 5) [
  | yes low ↦
      rw (sub64-neg n 5 low (omega arith), sub64-negsuc (5 - n - 1) 1 (omega arith)) (ground arith)
  | no high ↦ rw (sub64-pos n 5 (omega arith) h) (elim (dec_lt 5 n) [
    | yes more ↦ rw (sub64-pos (n - 5) 1 (omega arith) (omega arith)) (ground arith)
    | no five ↦ rw (sub64-neg (n - 5) 1 (omega arith) (omega arith)) (ground arith)
  ])
]

-- For every count below 2^63 the code computes the documented ladder: nothing for the first five
-- failures, then 30 seconds doubling with each further failure, capped at 15 minutes.
pub lockout_after-schedule : (n : ℕ) → n < int64_half → lockout_after (pos n) ≡ schedule n
unfolding lockout_after
lockout_after-schedule n h = rw (rung n h) (ground (arith, ladder_step-min (n - 6)))

ladder_step-le : (z : ℤ) → ladder z ≤ lockout_max
unfolding ladder_step
ladder_step-le (pos k) = ground arith
ladder_step-le (negsuc k) = omega arith

-- No count, not even one that has wrapped around, locks the app for more than 15 minutes.
pub lockout_after-le-max : (z : ℤ) → lockout_after z ≤ lockout_max
unfolding lockout_after
lockout_after-le-max z = ground (arith, ladder_step-le (sub64 (sub64 z 5) 1))

pub pow_le : (a b : ℕ) → a ≤ b → 2 ^ a ≤ 2 ^ b
pow_le a b h = pow-le-pow_right (omega arith) h

-- One more failure never shortens the wait.
pub lockout_after_mono :
    (m n : ℕ) → m ≤ n → n < int64_half → lockout_after (pos m) ≤ lockout_after (pos n)
lockout_after_mono m n h l =
    let p = lockout_after-schedule m (omega arith) in
    let q = lockout_after-schedule n l in ground (arith, p, q, pow_le (m - 6) (n - 6))
