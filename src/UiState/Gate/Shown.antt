-- ===== src/UiState/Gate/Shown.antt =====
-- The gate of ui/state/lockstate.go and what the snapshot shows of it.
use vayu_mail_mobile.Base.{
  ℕ, Bool-cases, inl, inr, ◌≡◌, refl, Bool, true, false, ◌&&◌, not, List, [], ◌∷◌, Result, ok, err,
  ltb, leb, if◌then◌else◌,
}
use vayu_mail_mobile.Crypto.Keystore.{Keystore}
use vayu_mail_mobile.Store.Db.{DbError}
use vayu_mail_mobile.Store.Settings.{set_setting}
use vayu_mail_mobile.Applock.Manager.{Error, Kdf, retry_delay, remove, verify, set}
use vayu_mail_mobile.Applock.Manager.Totp.{Otp, totp_enabled, remove_totp, verify_totp, set_totp}
use vayu_mail_mobile.UiState.Gate.{
  after_call, prompt, said_yes, succeeded, wait_read, wait_after, unlock, first_factor, idle_limit,
  set_gate,
}
use vayu_mail_mobile.UiState.Preferences.{App, after_setting, load_prefs}
use vayu_mail_mobile.UiState.Gate.Opening.{
  Call, locking, reloading, removing_pin, removing_totp, idling, saving, setting_pin, enrolling,
  trying_pin, trying_totp, trying_biometric, call, run,
}

module _ {S : Type 0} where
  -- the gate that the screens see is the gate
  abbrev pub Shown : App S → Type 0
  Shown a = a.snap.locked ≡ a.locked

  if-Shown : (b : Bool) (x y : App S) → Shown x → Shown y → Shown (if b then x else y)
  if-Shown true x y hx hy = hx
  if-Shown false x y hx hy = hy

  after_call-Shown : (r : Result Error (Unit {0})) (a : App S) → Shown a → Shown (after_call r a).1
  after_call-Shown (ok u) a h = h
  after_call-Shown (err e) a h = h

  after_setting-Shown :
      (r : Result DbError (Unit {0})) (a : App S) → Shown a → Shown (after_setting r a)
  after_setting-Shown (ok u) a h = h
  after_setting-Shown (err e) a h = h

  wait_after-Shown : (b : Bool) (later : ℕ) (a : App S) → Shown a → Shown (wait_after b later a).1
  wait_after-Shown true later a h = h
  wait_after-Shown false later a h = h

  unlock-Shown : (a : App S) → Shown (unlock a)
  unfolding unlock
  unlock-Shown a = refl

module _ {S : Type 0} (K : Keystore S) (C : Kdf) (O : Otp) where
  first_factor-Shown : (a : App S) → Shown a → Shown (first_factor K a).1
  first_factor-Shown a h = elim (Bool-cases (totp_enabled K a.env.secrets)) [
    | inl on ↦ rw on h
    | inr off ↦ rw off (unlock-Shown a)
  ]

  prompt-Shown : (sheet : Bool) (a : App S) → Shown a → Shown (prompt K sheet a).1
  prompt-Shown true a h = first_factor-Shown a h
  prompt-Shown false a h = h

  pair-Shown :
      (b : Bool) (x y : Bool × App S) → Shown x.1 → Shown y.1 → Shown (if b then x else y).1
  pair-Shown true x y hx hy = hx
  pair-Shown false x y hx hy = hy

  answer-Shown :
      (b : Bool) (x y : (Bool × Bool) × App S)
      → Shown x.1
      → Shown y.1
      → Shown (if b then x else y).1
  answer-Shown true x y hx hy = hx
  answer-Shown false x y hx hy = hy

  call-Shown : (c : Call) (a : App S) → Shown a → Shown (call K C O c a)
  unfolding call load_prefs
  call-Shown locking a h =
      if-Shown (a.has_lock && a.snap.app_lock_enabled) (set_gate true a) a refl h
  call-Shown reloading a h = refl
  call-Shown removing_pin a h =
      let s = if totp_enabled K a.env.secrets then (remove_totp K a.env).1 else a.env in
      let r = remove K s in
      let a' = record a { env = r.1 } in
      after_call-Shown r.0 (if succeeded r.0 then unlock a' else a')
        (if-Shown (succeeded r.0) (unlock a') a' (unlock-Shown a') h)
  call-Shown removing_totp a h =
      let r = remove_totp K a.env in after_call-Shown r.0 (record a { env = r.1 }) h
  call-Shown (idling gap) a h =
      if-Shown
        (a.has_lock
          && a.snap.app_lock_enabled
          && not a.locked
          && leb (idle_limit a.snap.app_lock_timeout) gap)
        (set_gate true a) a refl h
  call-Shown (saving key v) a h =
      let r = set_setting key v a.env.db in
      after_setting-Shown r.0 (record a { env = record (a.env) { db = r.1 } }) h
  call-Shown (setting_pin pin random) a h =
      let r = set K C pin random a.env in after_call-Shown r.0 (record a { env = r.1 }) h
  call-Shown (enrolling secret) a h =
      let r = set_totp K O secret a.env in after_call-Shown r.0 (record a { env = r.1 }) h
  call-Shown (trying_pin pin now later) a h =
      let r = verify K C pin now a.env in
      let a' = record a { env = r.1 } in
      let f = if said_yes r.0 then first_factor K a' else (false, a') in
      wait_after-Shown (said_yes r.0) later f.1
        (pair-Shown (said_yes r.0) (first_factor K a') (false, a') (first_factor-Shown a' h) h)
  call-Shown (trying_totp code on now later) a h =
      let r = verify_totp K O code now a.env in
      let a' = record a { env = r.1 } in
      let b = said_yes r.0 && on in
      wait_after-Shown (said_yes r.0) later (if b then unlock a' else a')
        (if-Shown b (unlock a') a' (unlock-Shown a') h)
  call-Shown (trying_biometric sheet now) a h =
      let r = retry_delay now a.env in
      let a' = record a { env = r.1 } in
      let late = ltb 0 (wait_read r.0) in
      answer-Shown
        (a.has_lock && a.snap.app_lock_enabled && a.snap.biometric_enabled
          && a.snap.biometric_available)
        (if late then ((false, false), a') else prompt K sheet a') ((false, false), a)
        (answer-Shown late ((false, false), a') (prompt K sheet a') h (prompt-Shown sheet a' h)) h

  -- What the screens are shown of the gate stays the state of the gate through every sequence of calls.
  pub run-Shown : (cs : List Call) (a : App S) → Shown a → Shown (run K C O cs a)
  run-Shown [] a h = h
  run-Shown (c ∷ cs) a h = run-Shown cs (call K C O c a) (call-Shown c a h)
