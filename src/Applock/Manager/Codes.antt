-- ===== src/Applock/Manager/Codes.antt =====
-- What the second factor of totp.go decides.
use vayu_mail_mobile.Base.{
  ℕ, zero, suc, ◌+◌, ◌-◌, ◌*◌, ◌/◌, ◌%◌, ◌^◌, ◌≡◌, ◌≤◌, ◌<◌, ◌↔◌, ◌⊎◌, inl, inr, refl, sym, ap, ◌∙◌,
  Bool, true, false, ◌||◌, some, [], ◌∷◌, ◌++◌, map, Bytes, eq_bytes, eq_bytes_iff, trim_space,
  length, length-append, All, All-append, drop, ok, err, if◌then◌else◌, arith, Bool-cases, add64,
}
use vayu_mail_mobile.Crypto.Keystore.{Keystore}
use vayu_mail_mobile.Applock.Pin.{IsDigit}
use vayu_mail_mobile.Applock.Ladder.{second}
use vayu_mail_mobile.Applock.Manager.{Env, locked_out, refuse, admit}
use vayu_mail_mobile.Applock.Manager.Lockout.{
  Timely, IsHealthy, rows, with_rows, cleared, failed, failures_of, window_of, retry_delay_lem,
  clear_lockout_lem, record_failure_lem,
}
use vayu_mail_mobile.Applock.Manager.Totp.{
  Otp, totp_alias, padded, last_byte, read_u32, big_endian, hotp, any_match, counters, candidates,
  verify_totp,
}

-- the number that a text of digits stands for, behind those that are read already
abbrev pub read_digits : Bytes → ℕ → ℕ
read_digits [] n = n
read_digits (c ∷ s) n = read_digits s (n * 10 + (c - b'0'))

read_digits-append :
    (s : Bytes) (c n : ℕ) → read_digits (s ++ c ∷ []) n ≡ read_digits s n * 10 + (c - b'0')
read_digits-append [] c n = refl
read_digits-append (d ∷ s) c n = read_digits-append s c (n * 10 + (d - b'0'))

fewer_digits : (w n : ℕ) → n < 10 ^ suc w → n / 10 < 10 ^ w
fewer_digits w n h = omega arith

no_digits : (n : ℕ) → n < 10 ^ 0 → padded 0 n ≡ []
unfolding padded
no_digits n h = ground arith

length-padded : (w n : ℕ) → n < 10 ^ w → length (padded w n) ≡ w
unfolding padded
length-padded zero n h = ap length (no_digits n h)
length-padded (suc w) n h = omega (
  arith,
  length-append (padded w (n / 10)) ((b'0' + n % 10) ∷ []),
  length-padded w (n / 10) (fewer_digits w n h),
)

All-padded : (w n : ℕ) → n < 10 ^ w → All IsDigit (padded w n)
unfolding padded
All-padded zero n h = rw (no_digits n h) tt
All-padded (suc w) n h =
    All-append IsDigit (padded w (n / 10)) _ (All-padded w (n / 10) (fewer_digits w n h))
      (omega arith, tt)

read_digits-padded : (w n : ℕ) → n < 10 ^ w → read_digits (padded w n) 0 ≡ n
unfolding padded
read_digits-padded zero n h = ap (λ s. read_digits s 0) (no_digits n h) ∙ omega arith
read_digits-padded (suc w) n h =
    let rest = read_digits-padded w (n / 10) (fewer_digits w n h) in
    read_digits-append (padded w (n / 10)) (b'0' + n % 10) 0 ∙ omega (arith, rest)

last_byte_total : (s : Bytes) → 0 < length s → (b : ℕ) × (last_byte s ≡ some b)
unfolding last_byte
last_byte_total [] h = absurd (omega arith)
last_byte_total (c ∷ []) h = (c, refl)
last_byte_total (c ∷ d ∷ s) h = last_byte_total (d ∷ s) (omega arith)

read_u32_total : (k : ℕ) (s : Bytes) → k + 4 ≤ length s → (n : ℕ) × (read_u32 (drop k s) ≡ some n)
unfolding read_u32
read_u32_total zero [] h = absurd (omega arith)
read_u32_total zero (a ∷ []) h = absurd (omega arith)
read_u32_total zero (a ∷ b ∷ []) h = absurd (omega arith)
read_u32_total zero (a ∷ b ∷ c ∷ []) h = absurd (omega arith)
read_u32_total zero (a ∷ b ∷ c ∷ d ∷ s) h = (_, refl)
read_u32_total (suc k) [] h = absurd (omega arith)
read_u32_total (suc k) (c ∷ s) h = read_u32_total k s (omega arith)

-- the time step of RFC 6238
abbrev pub step_at : ℕ → ℕ
step_at now = now / (30 * second)

counters_lem :
    (now : ℕ)
    → 30 * second ≤ now
    → Timely now
    → counters now ≡ (step_at now - 1) ∷ step_at now ∷ (step_at now + 1) ∷ []
unfolding counters
counters_lem now h t =
    let e : now / second / 30 ≡ step_at now = omega arith in
    let a : (now / second + (2 ^ 64 - 30)) % 2 ^ 64 / 30 ≡ step_at now - 1 = omega arith in
    let b : now / second % 2 ^ 64 / 30 ≡ step_at now = omega arith in
    let c : (now / second + 30) % 2 ^ 64 / 30 ≡ step_at now + 1 = omega arith in rw (a, b, c)

or_cases : (x y z : Bool) → (x || y || z) ≡ true → (x ≡ true) ⊎ ((y ≡ true) ⊎ (z ≡ true))
or_cases x y z h = ground arith

near_cases : (k j : ℕ) → (j ≤ k + 1) × (k ≤ j + 1) → (j ≡ k - 1) ⊎ ((j ≡ k) ⊎ (j ≡ k + 1))
near_cases k j h = grind arith

module _ (O : Otp) where
  -- the dynamic truncation of RFC 4226: the low four bits of the last byte of the hash are an offset, and
  -- the low 31 bits of the big-endian word there are the number
  abbrev pub IsTruncation : Bytes → ℕ → Type 0
  IsTruncation sum n =
      (last : ℕ) × (word : ℕ) × (last_byte sum ≡ some last)
      × (read_u32 (drop (last % 16) sum) ≡ some word)
      × (n ≡ word % 2 ^ 31)

  -- Computing a code never reads out of range, for any key and counter. The code is six ASCII digits, and
  -- they are the last six decimal digits of the number to which RFC 4226 truncates the hash.
  pub hotp_total :
      (key : Bytes) (counter : ℕ)
      → (code : Bytes) × (hotp O key counter ≡ some code)
        × (length code ≡ 6)
        × All IsDigit code
        × ((n : ℕ) × IsTruncation (O.hmac key (big_endian 8 counter)) n
            × (read_digits code 0 ≡ n % 10 ^ 6))
  unfolding hotp
  hotp_total key counter =
      let sum = O.hmac key (big_endian 8 counter) in
      let len = O.length-hmac key (big_endian 8 counter) in
      let (b, last) = last_byte_total sum (omega (arith, len)) in
      let (m, word) = read_u32_total (b % 16) sum (omega (arith, len)) in
      let n = m % 2 ^ 31 in
      let small : n % 1000000 < 10 ^ 6 = omega arith in
      (
        padded 6 (n % 1000000),
        rw (last, word) refl,
        length-padded 6 _ small,
        All-padded 6 _ small,
        (n, (b, m, last, word, refl), read_digits-padded 6 _ small),
      )

  -- the loop of `VerifyTOTP` over three codes
  any_match_three :
      (code a b c : Bytes)
      → any_match O code (some a ∷ some b ∷ some c ∷ []) false
        ≡ some (eq_bytes c code || eq_bytes b code || eq_bytes a code)
  unfolding any_match
  any_match_three code a b c = ground arith

  -- a step at most one away from `k`
  abbrev pub Near : ℕ → ℕ → Type 0
  Near k j = (j ≤ k + 1) × (k ≤ j + 1)

  -- `code` is shown in a time step that differs from that of `now` by at most one
  abbrev pub IsCurrent : Bytes → Bytes → ℕ → Type 0
  IsCurrent key code now = (j : ℕ) × Near (step_at now) j × (hotp O key j ≡ some code)

  shown_current :
      (key code want : Bytes) (k j : ℕ)
      → Near k j
      → hotp O key j ≡ some want
      → eq_bytes want code ≡ true
      → (i : ℕ) × Near k i × (hotp O key i ≡ some code)
  shown_current key code want k j near e same =
      (j, near, e ∙ ap some ((eq_bytes_iff want code).0 same))

  current_shown :
      (key code want : Bytes) (i j : ℕ)
      → hotp O key j ≡ some want
      → hotp O key i ≡ some code
      → i ≡ j
      → eq_bytes want code ≡ true
  current_shown key code want i j e f same =
      (eq_bytes_iff want code).1
        (let g : some want ≡ some code = sym e ∙ ap (hotp O key) (sym same) ∙ f in cc)

  found_iff :
      (key code : Bytes) (now : ℕ)
      → 30 * second ≤ now
      → Timely now
      → (b : Bool) × (any_match O code (map (hotp O key) (counters now)) false ≡ some b)
        × ((b ≡ true) ↔ IsCurrent key code now)
  found_iff key code now h t =
      let k = step_at now in
      let (a, ha, _, _, _) = hotp_total key (k - 1) in
      let (b, hb, _, _, _) = hotp_total key k in
      let (c, hc, _, _, _) = hotp_total key (k + 1) in
      let forward : (eq_bytes c code || eq_bytes b code || eq_bytes a code) ≡ true
          → IsCurrent key code now =
        λ e. elim (or_cases (eq_bytes c code) (eq_bytes b code) (eq_bytes a code) e) [
          | inl z ↦ shown_current key code c k (k + 1) (omega arith) hc z
          | inr (inl y) ↦ shown_current key code b k k (omega arith) hb y
          | inr (inr x) ↦ shown_current key code a k (k - 1) (omega arith) ha x
        ] in
      let backward : IsCurrent key code now
          → (eq_bytes c code || eq_bytes b code || eq_bytes a code) ≡ true =
        λ (i, near, e). elim (near_cases k i near) [
          | inl x ↦ ground (arith, current_shown key code a i (k - 1) ha e x)
          | inr (inl y) ↦ ground (arith, current_shown key code b i k hb e y)
          | inr (inr z) ↦ ground (arith, current_shown key code c i (k + 1) hc e z)
        ] in
      (
        (eq_bytes c code || eq_bytes b code || eq_bytes a code),
        rw (counters_lem now h t, ha, hb, hc) (any_match_three code a b c),
        (forward, backward),
      )

module _ {S : Type 0} (K : Keystore S) (O : Otp) where
  -- While the lockout window is open a code is refused, right or wrong, and nothing changes: both
  -- factors share the window.
  pub verify_totp_locked :
      (code : Bytes) (now : ℕ) (s : Env S)
      → IsHealthy s
      → 0 < window_of (rows s) now
      → verify_totp K O code now s ≡ (err locked_out, s)
  unfolding verify_totp
  verify_totp_locked code now s h w = rw (retry_delay_lem now s h) (ground arith)

  -- With the window closed and a secret enrolled, on a healthy database and at a time between half a
  -- minute after the epoch and the year 2116, the trimmed code is accepted exactly if the
  -- authenticator shows it in the current time step or in a neighbouring one. Accepting clears the
  -- failures that PINs and codes share, refusing adds one, and nothing else changes.
  pub verify_totp_decides :
      (code key : Bytes) (now : ℕ) (s : Env S)
      → IsHealthy s
      → window_of (rows s) now ≡ 0
      → K.fetch totp_alias s.secrets ≡ ok key
      → 30 * second ≤ now
      → Timely now
      → (b : Bool) × ((b ≡ true) ↔ IsCurrent O key (trim_space code) now)
        × (verify_totp K O code now s ≡ (
          ok b,
          with_rows s (
              if b then cleared (rows s) else failed (rows s) (add64 (failures_of (rows s)) 1) now),
        ))
  unfolding verify_totp admit refuse candidates
  verify_totp_decides code key now s h w found late t =
      let (b, e, iff) = found_iff O key (trim_space code) now late t in
      (
        b,
        iff,
        rw (retry_delay_lem now s h) (
            rw (w, found, e)
              (elim (Bool-cases b) [
                | inl yes_b ↦ rw yes_b (rw (clear_lockout_lem s h))
                | inr no_b ↦ rw no_b (rw (record_failure_lem now s h))
              ])),
      )
