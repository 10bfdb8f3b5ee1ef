-- ===== src/UiState/Gate/Opening.antt =====
-- What opens the gate of ui/state/lockstate.go.
use vayu_mail_mobile.Base.{
  zero_of, ℕ, ap, sym, ◌∙◌, ◌≡◌, refl, Bool, true, false, ◌&&◌, Option, List, [], ◌∷◌, Bytes,
  Result, ok, err, ltb, if◌then◌else◌, Bool-cases, inl, inr, arith,
}
use vayu_mail_mobile.Crypto.Keystore.{Keystore}
use vayu_mail_mobile.Applock.Manager.{delay_of, Error, Kdf, retry_delay, remove, verify, set}
use vayu_mail_mobile.Applock.Manager.Totp.{Otp, totp_enabled, remove_totp, verify_totp, set_totp}
use vayu_mail_mobile.UiState.Gate.{
  after_call, prompt, said_yes, succeeded, wait_after, unlock, lock_now, maybe_auto_lock,
  first_factor, unlock_with_biometric, remove_pin, remove_totp_factor, enroll_totp,
  verify_totp_code, set_pin, verify_pin,
}
use vayu_mail_mobile.UiState.Preferences.{App, after_setting, save_setting, reload}
use vayu_mail_mobile.Store.Db.{DbError}
use vayu_mail_mobile.Store.Settings.{set_setting, get_setting, applock_locked_until}

-- the calls that the screens and the frame loop make, and the loader's turn
pub data Call : Type 0 where
  locking reloading removing_pin removing_totp : Call
  idling : ℕ → Call
  saving : Bytes → Bytes → Call
  setting_pin : Bytes → Option Bytes → Call
  enrolling : Bytes → Call
  trying_pin : Bytes → ℕ → ℕ → Call
  trying_totp : Bytes → Bool → ℕ → ℕ → Call
  trying_biometric : Bool → ℕ → Call

module _ {S : Type 0} (K : Keystore S) (C : Kdf) (O : Otp) where
  unfoldable pub call : Call → App S → App S
  unfolding lock_now maybe_auto_lock save_setting reload unlock_with_biometric remove_pin
      remove_totp_factor enroll_totp verify_totp_code set_pin verify_pin unlock
  call locking a = lock_now a
  call reloading a = reload K a
  call removing_pin a = (remove_pin K a).1
  call removing_totp a = (remove_totp_factor K a).1
  call (idling gap) a = maybe_auto_lock gap a
  call (saving key v) a = save_setting key v a
  call (setting_pin pin random) a = (set_pin K C pin random a).1
  call (enrolling secret) a = (enroll_totp K O secret a).1
  call (trying_pin pin now later) a = (verify_pin K C pin now later a).1
  call (trying_totp code on now later) a = (verify_totp_code K O code on now later a).1
  call (trying_biometric sheet now) a = (unlock_with_biometric K sheet now a).1

  abbrev pub run : List Call → App S → App S
  run [] a = a
  run (c ∷ cs) a = run cs (call c a)

  -- what makes a call open the gate
  abbrev pub Opens : Call → App S → Type 0
  Opens (trying_pin pin now later) a =
      ((verify K C pin now a.env).0 ≡ ok true)
      × (totp_enabled K (verify K C pin now a.env).1.secrets ≡ false)
  Opens (trying_totp code on now later) a =
      (on ≡ true) × ((verify_totp K O code now a.env).0 ≡ ok true)
  Opens (trying_biometric sheet now) a =
      (sheet ≡ true)
      × (a.snap.biometric_enabled ≡ true)
      × ((retry_delay now a.env).0 ≡ ok 0)
      × (totp_enabled K (retry_delay now a.env).1.secrets ≡ false)
  Opens removing_pin a =
      (remove K (if totp_enabled K a.env.secrets then (remove_totp K a.env).1 else a.env)).0 ≡ ok tt
  Opens _ a = ⊥

  after_call-locked :
      (r : Result Error (Unit {0})) (a : App S) → (after_call r a).1.locked ≡ a.locked
  after_call-locked (ok u) a = refl
  after_call-locked (err e) a = refl

  after_setting-locked :
      (r : Result DbError (Unit {0})) (a : App S) → (after_setting r a).locked ≡ a.locked
  after_setting-locked (ok u) a = refl
  after_setting-locked (err e) a = refl

  wait_after-locked :
      (b : Bool) (later : ℕ) (a : App S) → (wait_after b later a).1.locked ≡ a.locked
  wait_after-locked true later a = refl
  wait_after-locked false later a = refl

  first_opened :
      (a : App S)
      → a.locked ≡ true
      → (first_factor K a).1.locked ≡ false
      → totp_enabled K a.env.secrets ≡ false
  unfolding unlock
  first_opened a h o = elim (Bool-cases (totp_enabled K a.env.secrets)) [
    | inl on ↦ cc (rw on at o)
    | inr off ↦ off
  ]

  pin_opened :
      (r : Result Error Bool) (a : App S)
      → a.locked ≡ true
      → (if said_yes r then first_factor K a else (false, a)).1.locked ≡ false
      → (r ≡ ok true) × (totp_enabled K a.env.secrets ≡ false)
  pin_opened (ok true) a h o = (refl, first_opened a h o)
  pin_opened (ok false) a h o = cc
  pin_opened (err e) a h o = cc

  code_opened :
      (r : Result Error Bool) (on : Bool) (a : App S)
      → a.locked ≡ true
      → (if said_yes r && on then unlock a else a).locked ≡ false
      → (on ≡ true) × (r ≡ ok true)
  code_opened (ok true) true a h o = (refl, refl)
  code_opened (ok true) false a h o = cc
  code_opened (ok false) on a h o = cc
  code_opened (err e) on a h o = cc

  removal_opened :
      (r : Result Error (Unit {0})) (a : App S)
      → a.locked ≡ true
      → (if succeeded r then unlock a else a).locked ≡ false
      → r ≡ ok tt
  removal_opened (ok tt) a h o = refl
  removal_opened (err e) a h o = cc

  prompt_opened :
      (sheet : Bool) (a : App S)
      → a.locked ≡ true
      → (prompt K sheet a).1.locked ≡ false
      → (sheet ≡ true) × (totp_enabled K a.env.secrets ≡ false)
  prompt_opened true a h o = (refl, first_opened a h o)
  prompt_opened false a h o = cc

  third : (b c d e : Bool) → (b && c && d && e) ≡ true → d ≡ true
  third b c d e h = ground arith

  biometric_opened :
      (sheet : Bool) (now : ℕ) (a : App S)
      → a.locked ≡ true
      → (unlock_with_biometric K sheet now a).1.locked ≡ false
      → Opens (trying_biometric sheet now) a
  unfolding unlock_with_biometric retry_delay
  biometric_opened sheet now a h o =
      let d = delay_of (get_setting applock_locked_until a.env.db).0 now in
      let a' = record a { env = (retry_delay now a.env).1 } in
      elim (Bool-cases (
        a.has_lock && a.snap.app_lock_enabled && a.snap.biometric_enabled
        && a.snap.biometric_available)) [
          | inl offered ↦ elim (Bool-cases (ltb 0 d)) [
            | inl wait ↦ cc (rw (offered, wait) at o)
            | inr go ↦
                let p = prompt_opened sheet a' h (rw (offered, go) at o) in
                (
                  p.0,
                  third a.has_lock a.snap.app_lock_enabled a.snap.biometric_enabled
                      a.snap.biometric_available offered,
                  ap ok (zero_of d go),
                  p.1,
                )
          ]
          | inr refused ↦ cc (rw refused at o)
        ]

  -- A call that opens a locked gate is a PIN that is right, with no second factor enrolled, a right
  -- code that was asked for to unlock, a confirmed biometric prompt, or the removal of the PIN.
  pub gate-Opens : (c : Call) (a : App S) → a.locked ≡ true → (call c a).locked ≡ false → Opens c a
  unfolding call remove_pin unlock
  gate-Opens locking a h o = ground arith
  gate-Opens reloading a h o = cc
  gate-Opens removing_pin a h o =
      let s = if totp_enabled K a.env.secrets then (remove_totp K a.env).1 else a.env in
      let r = remove K s in
      let a' = record a { env = r.1 } in
      removal_opened r.0 a' h
        (sym (after_call-locked r.0 (if succeeded r.0 then unlock a' else a')) ∙ o)
  gate-Opens removing_totp a h o =
      cc (after_call-locked (remove_totp K a.env).0 (record a { env = (remove_totp K a.env).1 }))
  gate-Opens (idling gap) a h o = ground arith
  gate-Opens (saving key v) a h o =
      let r = set_setting key v a.env.db in
      cc (after_setting-locked r.0 (record a { env = record (a.env) { db = r.1 } }))
  gate-Opens (setting_pin pin random) a h o =
      let r = set K C pin random a.env in cc (after_call-locked r.0 (record a { env = r.1 }))
  gate-Opens (enrolling secret) a h o =
      let r = set_totp K O secret a.env in cc (after_call-locked r.0 (record a { env = r.1 }))
  gate-Opens (trying_pin pin now later) a h o =
      let r = verify K C pin now a.env in
      let a' = record a { env = r.1 } in
      let f = if said_yes r.0 then first_factor K a' else (false, a') in
      pin_opened r.0 a' h (sym (wait_after-locked (said_yes r.0) later f.1) ∙ o)
  gate-Opens (trying_totp code on now later) a h o =
      let r = verify_totp K O code now a.env in
      let a' = record a { env = r.1 } in
      let b = if said_yes r.0 && on then unlock a' else a' in
      code_opened r.0 on a' h (sym (wait_after-locked (said_yes r.0) later b) ∙ o)
  gate-Opens (trying_biometric sheet now) a h o = biometric_opened sheet now a h o
