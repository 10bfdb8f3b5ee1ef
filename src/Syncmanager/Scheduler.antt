-- ===== src/Syncmanager/Scheduler.antt =====
-- internal/syncmanager/scheduler.go: the cadence of `runScheduler`. Durations are nanoseconds.
use native.Mathlib.Nat.{mul_assoc, pow-succ'}
use vayu_mail_mobile.Base.{
  ℕ, ◌≤◌, sym, Bool-cases, inl, inr, zero, suc, ◌*◌, ◌^◌, ◌≡◌, ◌∙◌, refl, ap, min, Bool, true,
  false, List, [], ◌∷◌, ◌++◌, ltb, arith, if◌then◌else◌,
}

abbrev pub minute : ℕ
minute = 60 * 10 ^ 9

abbrev pub scheduler_base : ℕ
scheduler_base = 5 * minute

abbrev pub scheduler_max : ℕ
scheduler_max = 30 * minute

-- the interval behind a pass that failed, or did not
unfoldable pub next_interval : Bool → ℕ → ℕ
next_interval true interval =
    if ltb scheduler_max (interval * 2) then scheduler_max else interval * 2
next_interval false interval = scheduler_base

-- the interval behind a sequence of passes
unfoldable pub after_passes : List Bool → ℕ → ℕ
unfolding next_interval
after_passes [] interval = interval
after_passes (failed ∷ passes) interval = after_passes passes (next_interval failed interval)

abbrev pub failures : ℕ → List Bool
failures zero = []
failures (suc n) = true ∷ failures n

after_append :
    (xs ys : List Bool) (interval : ℕ)
    → after_passes (xs ++ ys) interval ≡ after_passes ys (after_passes xs interval)
unfolding after_passes
after_append [] ys interval = refl
after_append (x ∷ xs) ys interval = after_append xs ys (next_interval x interval)

-- an interval doubled n times
doubled : ℕ → ℕ → ℕ
doubled zero interval = interval
doubled (suc n) interval = doubled n (interval * 2)

doubled-pow : (n interval : ℕ) → doubled n interval ≡ interval * 2 ^ n
unfolding doubled
doubled-pow zero interval = omega arith
doubled-pow (suc n) interval =
    doubled-pow n (interval * 2)
    ∙ mul_assoc interval 2 (2 ^ n)
    ∙ ap (λ t. interval * t) (sym (pow-succ' 2 n))

le-doubled : (n interval : ℕ) → interval ≤ doubled n interval
unfolding doubled
le-doubled zero interval = omega arith
le-doubled (suc n) interval = omega (arith, le-doubled n (interval * 2))

capped_max :
    (n interval : ℕ)
    → scheduler_max ≤ interval
    → min (doubled n interval) scheduler_max ≡ scheduler_max
capped_max n interval h = omega (arith, le-doubled n interval)

next_capped :
    (interval : ℕ)
    → ltb scheduler_max (interval * 2) ≡ true
    → next_interval true interval ≡ scheduler_max
unfolding next_interval
next_capped interval h = rw h

next_doubled :
    (interval : ℕ)
    → ltb scheduler_max (interval * 2) ≡ false
    → next_interval true interval ≡ interval * 2
unfolding next_interval
next_doubled interval h = rw h

after_failures :
    (n interval : ℕ)
    → interval ≤ scheduler_max
    → after_passes (failures n) interval ≡ min (doubled n interval) scheduler_max
unfolding after_passes doubled
after_failures zero interval h = omega arith
after_failures (suc n) interval h = elim (Bool-cases (ltb scheduler_max (interval * 2))) [
  | inl over ↦
      ap (after_passes (failures n)) (next_capped interval over)
      ∙ after_failures n scheduler_max (omega arith)
      ∙ capped_max n scheduler_max (omega arith)
      ∙ sym (capped_max n (interval * 2) (ground arith))
  | inr under ↦
      ap (after_passes (failures n)) (next_doubled interval under)
      ∙ after_failures n (interval * 2) (ground arith)
]

-- After a pass that succeeded, whatever came before, n failing passes in a row leave an interval of five
-- minutes doubled n times, but not above thirty minutes.
pub cadence :
    (passes : List Bool) (n interval : ℕ)
    → after_passes (passes ++ false ∷ failures n) interval
      ≡ min (scheduler_base * 2 ^ n) scheduler_max
unfolding after_passes next_interval
cadence passes n interval =
    after_append passes (false ∷ failures n) interval
    ∙ after_failures n scheduler_base (omega arith)
    ∙ ap (λ t. min t scheduler_max) (doubled-pow n scheduler_base)
