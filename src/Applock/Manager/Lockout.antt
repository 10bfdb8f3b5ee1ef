-- ===== src/Applock/Manager/Lockout.antt =====
-- What the lockout bookkeeping of applock.go does on a database whose statements succeed.
use vayu_mail_mobile.Base.{
  ℕ, ◌+◌, ◌-◌, ◌*◌, ◌/◌, ◌^◌, ◌≡◌, ◌≢◌, ◌<◌, refl, false, [], ◌∷◌, ℤ, pos, add64, Bytes, eq_bytes,
  eq_bytes_refl, Bool-cases, inl, inr, ok, ltb, if◌then◌else◌, arith, List,
}
use vayu_mail_mobile.Base.Decimal.{
  atoi_or, itoa, atoi_or-itoa, parse_int-itoa, itoa-ne-nil, value, parse_int,
}
use vayu_mail_mobile.Store.Settings.{
  applock_failures, applock_locked_until, value_of, put_key, value_of-put_key, get_setting-healthy,
  set_setting-healthy,
}
use vayu_mail_mobile.Applock.Ladder.{second, lockout_after, lockout_after-le-max}
use vayu_mail_mobile.Applock.Manager.{Env, retry_delay, clear_lockout, record_failure, wait_of}

abbrev pub Settings : Type 0
Settings = List (Bytes × Bytes)

abbrev pub failures_of : Settings → ℤ
failures_of rows = atoi_or (value_of applock_failures rows)

abbrev pub window_of : Settings → ℕ → ℕ
window_of rows now = wait_of (value_of applock_locked_until rows) now

-- 2^62 nanoseconds after 1970 is the year 2116
abbrev pub Timely : ℕ → Type 0
Timely now = now < 2 ^ 62

wait_of_parsed :
    (raw : Bytes) (u now : ℕ)
    → raw ≢ []
    → parse_int raw ≡ value (pos u)
    → u * second < 2 ^ 63
    → wait_of raw now ≡ u * second - now
unfolding wait_of
wait_of_parsed [] u now h e l = absurd (h refl)
wait_of_parsed (c ∷ raw) u now h e l = ground arith

wait_of-itoa : (u now : ℕ) → u * second < 2 ^ 63 → wait_of (itoa (pos u)) now ≡ u * second - now
wait_of-itoa u now h =
    wait_of_parsed (itoa (pos u)) u now (itoa-ne-nil u) (parse_int-itoa (pos u) (omega arith)) h

abbrev pub cleared : Settings → Settings
cleared r = put_key applock_locked_until [] (put_key applock_failures [] r)

-- the settings after a wrong answer that brings the counter to `z`
abbrev pub failed : Settings → ℤ → ℕ → Settings
failed r z now =
    let r' = put_key applock_failures (itoa z) r in
    if ltb 0 (lockout_after z)
    then put_key applock_locked_until (itoa (pos ((now + lockout_after z) / second))) r'
    else r'

module _ {S : Type 0} where
  abbrev pub IsHealthy : Env S → Type 0
  IsHealthy s = s.db.faults ≡ []

  abbrev pub rows : Env S → Settings
  rows s = s.db.settings

  abbrev pub with_rows : Env S → Settings → Env S
  with_rows s r = record s { db = record s.db { settings = r } }

  pub retry_delay_lem :
      (now : ℕ) (s : Env S) → IsHealthy s → retry_delay now s ≡ (ok (window_of (rows s) now), s)
  unfolding retry_delay
  retry_delay_lem now s h = rw (get_setting-healthy applock_locked_until s.db h)

  pub clear_lockout_lem :
      (s : Env S) → IsHealthy s → clear_lockout s ≡ (ok tt, with_rows s (cleared (rows s)))
  unfolding clear_lockout
  clear_lockout_lem s h = rw (set_setting-healthy applock_failures [] s.db h) (
      rw (
        set_setting-healthy applock_locked_until []
          (record s.db { settings = put_key applock_failures [] s.db.settings }) h))

  pub record_failure_lem :
      (now : ℕ) (s : Env S)
      → IsHealthy s
      → record_failure now s
        ≡ (ok tt, with_rows s (failed (rows s) (add64 (failures_of (rows s)) 1) now))
  unfolding record_failure
  record_failure_lem now s h =
      let z = add64 (failures_of (rows s)) 1 in
      let s' = record s.db { settings = put_key applock_failures (itoa z) s.db.settings } in
      rw (get_setting-healthy applock_failures s.db h) (
        rw (set_setting-healthy applock_failures (itoa z) s.db h)
          (elim (Bool-cases (ltb 0 (lockout_after z))) [
            | inl locks ↦ rw locks (
                rw (
                  set_setting-healthy applock_locked_until
                    (itoa (pos ((now + lockout_after z) / second))) s' h))
            | inr free ↦ rw free
          ]))

-- the two keys differ
failures_ne : eq_bytes applock_locked_until applock_failures ≡ false
unfolding eq_bytes
failures_ne = refl

locked_until_ne : eq_bytes applock_failures applock_locked_until ≡ false
unfolding eq_bytes
locked_until_ne = refl

pub failures_of-failed :
    (r : Settings) (n now : ℕ) → n < 2 ^ 63 → failures_of (failed r (pos n) now) ≡ pos n
failures_of-failed r n now h = ground (
  arith,
  failures_ne,
  eq_bytes_refl applock_failures,
  atoi_or-itoa (pos n) h,
  value_of-put_key applock_locked_until applock_failures
      (itoa (pos ((now + lockout_after (pos n)) / second)))
      (put_key applock_failures (itoa (pos n)) r),
  value_of-put_key applock_failures applock_failures (itoa (pos n)) r,
)

pub window_of-failed :
    (r : Settings) (z : ℤ) (now t : ℕ)
    → Timely now
    → window_of (failed r z now) t ≡ (
        if ltb 0 (lockout_after z)
        then (now + lockout_after z) / second * second - t
        else window_of r t)
window_of-failed r z now t h =
    let u = (now + lockout_after z) / second in
    let r' = put_key applock_failures (itoa z) r in
    ground (
      arith,
      locked_until_ne,
      eq_bytes_refl applock_locked_until,
      value_of-put_key applock_locked_until applock_locked_until (itoa (pos u)) r',
      value_of-put_key applock_failures applock_locked_until (itoa z) r,
      wait_of-itoa u t (omega (arith, lockout_after-le-max z)),
    )

pub failures_of-cleared : (r : Settings) → failures_of (cleared r) ≡ pos 0
unfolding atoi_or
failures_of-cleared r = ground (
  arith,
  failures_ne,
  eq_bytes_refl applock_failures,
  value_of-put_key applock_locked_until applock_failures [] (put_key applock_failures [] r),
  value_of-put_key applock_failures applock_failures [] r,
)

pub window_of-cleared : (r : Settings) (t : ℕ) → window_of (cleared r) t ≡ 0
unfolding wait_of
window_of-cleared r t = ground (
  arith,
  eq_bytes_refl applock_locked_until,
  value_of-put_key applock_locked_until applock_locked_until [] (put_key applock_failures [] r),
)
