-- ===== src/Applock/Manager/Throttle.antt =====
-- What a sequence of wrong PINs costs in time: the lockout ladder of applock.go over many calls of
-- `Verify`.
use vayu_mail_mobile.Base.{
  ℕ, zero, suc, ◌+◌, ◌-◌, ◌*◌, ◌≡◌, ◌≤◌, ◌<◌, Bool, true, false, some, List, [], ◌∷◌, pos,
  add64-pos, Bytes, eq_bytes, length, All, Result, ok, err, ltb, ltb→lt, ◌∙◌, not_ltb→le,
  int64_half, arith, Bool-cases, inl, inr, ap,
}
use native.Mathlib.Numerals.{add-one}
use native.Mathlib.Nat.{zero-add, add-zero, le_refl}
use native.Mathlib.Decide.{dec_lt}
use vayu_mail_mobile.Crypto.Keystore.{Keystore}
use vayu_mail_mobile.Applock.Ladder.{second, schedule, pow_le, lockout_after-schedule}
use vayu_mail_mobile.Applock.Manager.{Env, Error, locked_out, Kdf, Verifier, well_formed, verify}
use vayu_mail_mobile.Applock.Manager.Lockout.{
  Timely, IsHealthy, Settings, rows, failures_of, failures_of-failed, window_of, window_of-failed,
  failed, with_rows,
}
use vayu_mail_mobile.Applock.Manager.Verify.{Holds, derived, verify_locked, verify_decides}

-- an attempt: the PIN that is typed, and when
abbrev pub Attempt : Type 0
Attempt = Bytes × ℕ

abbrev answer_count : Result Error Bool → ℕ
answer_count (ok _) = 1
answer_count (err _) = 0

-- the attempts come one after the other, from `t` on
abbrev pub InOrder : ℕ → List Attempt → Type 0
InOrder t [] = Unit
InOrder t ((_, u) ∷ tries) = (t ≤ u) × Timely u × InOrder u tries

-- when the last attempt is made
abbrev pub last_time : ℕ → List Attempt → ℕ
last_time t [] = t
last_time t ((_, u) ∷ tries) = last_time u tries

-- the nanoseconds that must pass behind failure number `n`: the documented wait, less the second
-- that is lost where the end of the window is stored in whole seconds
abbrev pub pause : ℕ → ℕ
pause n = schedule n - second

-- the pauses behind failures n, n + 1, …, n + c - 1
pub pauses : ℕ → ℕ → ℕ
pauses n zero = 0
pauses n (suc c) = pause n + pauses (suc n) c

pauses_step : (n c : ℕ) → pauses n (1 + c) ≡ pause n + pauses (suc n) c
unfolding pauses
pauses_step n c = let e : 1 + c ≡ suc c = omega arith in rw e

-- `n` failures are counted, the last at `since`, and its pause is not over before the window is
record Waiting (r : Settings) (n since : ℕ) : Type 0 where
  counted : failures_of r ≡ pos n
  closed : (t : ℕ) → window_of r t ≡ 0 → since ≤ t → since + pause n ≤ t

Waiting-failed :
    (r : Settings) (n now : ℕ)
    → suc n < int64_half
    → Timely now
    → Waiting (failed r (pos (suc n)) now) (suc n) now
Waiting-failed r n now h t = record {
  counted = failures_of-failed r (suc n) now h;
  closed = λ u w l.
      ground (arith, window_of-failed r (pos (suc n)) now u t, lockout_after-schedule (suc n) h);
}

module _ {S : Type 0} (K : Keystore S) (C : Kdf) where
  -- how many of the attempts were compared with the verifier, and not refused unseen
  pub answered : List Attempt → Env S → ℕ
  answered [] s = 0
  answered ((pin, t) ∷ tries) s =
      answer_count (verify K C pin t s).0 + answered tries (verify K C pin t s).1

  -- the PIN derives another key than the verifier's
  abbrev pub IsWrong : Verifier → Attempt → Type 0
  IsWrong v (pin, t) =
      (key : Bytes) × (derived K C pin v ≡ some key) × (eq_bytes key v.hash ≡ false)

  -- one wrong attempt: refused with nothing changed, or counted once the pause is over
  data Outcome (pin : Bytes) (t : ℕ) (s : Env S) (n since : ℕ) : Type 0 where
    refused : verify K C pin t s ≡ (err locked_out, s) → Outcome pin t s n since
    counted_one :
        since + pause n ≤ t
        → verify K C pin t s ≡ (ok false, with_rows s (failed (rows s) (pos (suc n)) t))
        → Outcome pin t s n since

  wrong-Outcome :
      (v : Verifier) (pin : Bytes) (t : ℕ) (s : Env S) (n since : ℕ)
      → IsHealthy s
      → Holds K C v s
      → well_formed v ≡ true
      → IsWrong v (pin, t)
      → Waiting (rows s) n since
      → suc n < int64_half
      → since ≤ t
      → Outcome pin t s n since
  wrong-Outcome v pin t s n since h held wf (key, d, ne) w small l =
      elim (Bool-cases (ltb 0 (window_of (rows s) t))) [
        | inl locks ↦ refused (verify_locked K C pin t s h (ltb→lt _ _ locks))
        | inr shut ↦
            let z : window_of (rows s) t ≡ 0 = omega (arith, not_ltb→le _ _ shut) in
            counted_one (w.closed t z l) (
              verify_decides K C pin t s v key h z held wf d
              ∙ (rw ne (rw (w.counted, add64-pos n 1 (omega arith), add-one))))
      ]

  last_time-ge : (t : ℕ) (tries : List Attempt) → InOrder t tries → t ≤ last_time t tries
  last_time-ge t [] h = omega arith
  last_time-ge t ((pin, u) ∷ tries) h = omega (arith, last_time-ge u tries h.2)

  answered_cost :
      (v : Verifier) (tries : List Attempt) (s : Env S) (n since from : ℕ)
      → IsHealthy s
      → Holds K C v s
      → well_formed v ≡ true
      → All (IsWrong v) tries
      → InOrder from tries
      → Waiting (rows s) n since
      → n + length tries < int64_half
      → since ≤ from
      → since + pauses n (answered tries s) ≤ last_time from tries
  unfolding answered pauses
  answered_cost v [] s n since from h held wf wrong order w small l = omega arith
  answered_cost v ((pin, t) ∷ tries) s n since from h held wf (bad, wrong) (le, timely, order) w
        small l =
      elim (wrong-Outcome v pin t s n since h held wf bad w (omega arith) (omega arith)) [
        | refused e ↦
            rw (e, zero-add)
              (answered_cost v tries s n since t h held wf wrong order w (omega arith)
                (omega arith))
        | counted_one over e ↦
            let ih =
              answered_cost v tries (with_rows s (failed (rows s) (pos (suc n)) t)) (suc n) t t h
                held wf wrong order (Waiting-failed (rows s) n t (omega arith) timely) (omega arith)
                (omega arith) in
            rw (e, pauses_step) (omega (arith, ih))
      ]

-- behind the eleventh failure every pause is the full one
pause_long : (n : ℕ) → 11 ≤ n → pause n ≡ 899 * second
pause_long n h = ground (arith, pow_le 5 (n - 6))

pauses_long : (n c : ℕ) → 11 ≤ n → pauses n c ≡ c * (899 * second)
unfolding pauses
pauses_long n zero h = omega arith
pauses_long n (suc c) h = omega (arith, pause_long n h, pauses_long (suc n) c (omega arith))

pauses_later : (j n c : ℕ) → pauses (n + j) c ≤ pauses n (j + c)
pauses_later zero n c = rw (add-zero, zero-add) (le_refl _)
pauses_later (suc j) n c =
    let e : suc j + c ≡ 1 + (j + c) = omega arith in
    let f : n + suc j ≡ suc n + j = omega arith in
    rw (e, f, pauses_step) (omega (arith, pauses_later j (suc n) c))

pauses_bound : (c : ℕ) → (c - 11) * (899 * second) ≤ pauses 0 c
pauses_bound c = elim (dec_lt c 11) [
  | yes few ↦ let e : c - 11 ≡ 0 = omega arith in rw e (omega arith)
  | no many ↦
      let e : c ≡ 11 + (c - 11) = omega arith in
      let later = pauses_later 11 0 (c - 11) in
      let long = pauses_long (0 + 11) (c - 11) (omega arith) in
      omega (arith, later, long, ap (pauses 0) e)
]

module _ {S : Type 0} (K : Keystore S) (C : Kdf) where
  -- However attempts with PINs that derive a wrong key are timed: when the database is healthy, a
  -- well-formed verifier is stored and no failure is counted at `from`, each attempt beyond the
  -- first eleven that is compared with the verifier, and not refused unseen, takes 899 seconds.
  pub wrong_pins_throttled :
      (v : Verifier) (tries : List Attempt) (s : Env S) (from : ℕ)
      → IsHealthy s
      → Holds K C v s
      → well_formed v ≡ true
      → failures_of (rows s) ≡ pos 0
      → All (IsWrong K C v) tries
      → InOrder from tries
      → length tries < int64_half
      → from + (answered K C tries s - 11) * (899 * second) ≤ last_time from tries
  wrong_pins_throttled v tries s from h held wf none_yet wrong order small =
      let start : Waiting (rows s) 0 from = record {
        counted = none_yet;
        closed = λ t _ l. omega arith;
      } in
      let cost =
        answered_cost K C v tries s 0 from from h held wf wrong order start (omega arith)
          (omega arith) in
      omega (arith, cost, pauses_bound (answered K C tries s))
