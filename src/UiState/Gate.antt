-- ===== src/UiState/Gate.antt =====
-- ui/state/lockstate.go: the gate in front of the mailbox and the calls of the screens. Each call runs on a
-- goroutine of its own; here it runs as a whole, and a run is a sequence of calls.
pub mod Opening
pub mod Shown
pub mod Timeout
use vayu_mail_mobile.Base.{
  ℕ, ◌*◌, ◌^◌, ◌%◌, ◌≡◌, Bool, true, false, ◌&&◌, not, List, Option, [], ◌∷◌, ◌++◌, ℤ, pos, negsuc,
  of_bits, to_bits, int64_mod, Bytes, codes, eq_bytes, Result, ok, err, ltb, leb, if◌then◌else◌,
}
use vayu_mail_mobile.Base.Decimal.{Parsed, value, syntax, out_of_range, parse_int, itoa}
use vayu_mail_mobile.Crypto.Keystore.{Keystore}
use vayu_mail_mobile.Store.Db.{DbError}
use vayu_mail_mobile.Store.Settings.{
  notifications, notify_preview, reduce_motion, rich_html, biometric_unlock, applock_timeout,
  get_setting, set_setting,
}
use vayu_mail_mobile.Applock.Ladder.{second}
use vayu_mail_mobile.Applock.Manager.{Env, Error, Kdf, retry_delay, enabled, remove, set, verify}
use vayu_mail_mobile.Applock.Manager.Totp.{Otp, set_totp, totp_enabled, remove_totp, verify_totp}
use vayu_mail_mobile.UiState.Preferences.{
  reads_as, timeout_of, flag, refresh, after_setting, save_setting, set_notifications,
  set_notify_preview, set_biometric, set_motion_reduced, set_rich_html, set_app_lock_timeout,
  load_prefs, reload, Prefs, App,
}

abbrev min_gap : ℕ
min_gap = 30 * second

abbrev pub at_least_min_gap : ℤ → ℕ
at_least_min_gap (pos n) = if ltb n min_gap then min_gap else n
at_least_min_gap (negsuc _) = min_gap

-- `time.Duration(timeout) * time.Second` in an int64, not below the floor
abbrev pub idle_limit : ℤ → ℕ
idle_limit timeout = at_least_min_gap (of_bits (to_bits timeout * second % int64_mod))

abbrev pub said_yes : Result Error Bool → Bool
said_yes (ok b) = b
said_yes (err _) = false

abbrev pub succeeded : Result Error (Unit {0}) → Bool
succeeded (ok _) = true
succeeded (err _) = false

abbrev pub wait_read : Result Error ℕ → ℕ
wait_read (ok d) = d
wait_read (err _) = 0

module _ {S : Type 0} where
  abbrev pub set_gate : Bool → App S → App S
  set_gate b a = record a { locked = b; snap = record (a.snap) { locked = b } }

  unfoldable pub unlock : App S → App S
  unlock a = set_gate false a

  unfoldable pub lock_now : App S → App S
  lock_now a = if a.has_lock && a.snap.app_lock_enabled then set_gate true a else a

  unfoldable pub maybe_auto_lock : ℕ → App S → App S
  maybe_auto_lock gap a =
      if a.has_lock
        && a.snap.app_lock_enabled
        && not a.locked
        && leb (idle_limit a.snap.app_lock_timeout) gap
      then set_gate true a
      else a

  abbrev pub biometric_unlock_ready : App S → Bool
  biometric_unlock_ready a =
      a.snap.app_lock_enabled && a.snap.biometric_enabled && a.snap.biometric_available

  -- RetryDelay after an attempt that did not succeed
  abbrev pub wait_after : Bool → ℕ → App S → ℕ × App S
  wait_after true later a = (0, a)
  wait_after false later a =
      let r = retry_delay later a.env in (wait_read r.0, record a { env = r.1 })

  -- a call that ends in `done(err)`, after a refresh if there was no error
  abbrev pub after_call : Result Error (Unit {0}) → App S → Result Error (Unit {0}) × App S
  after_call (ok u) a = (ok u, refresh a)
  after_call (err e) a = (err e, a)

module _ {S : Type 0} (K : Keystore S) where
  -- the start of the loader: a set PIN starts locked
  unfoldable pub start : App S → App S
  start a =
      if a.has_lock && enabled K a.env.secrets
      then record a {
        locked = true;
        snap = record (a.snap) { locked = true; app_lock_enabled = true };
      }
      else a

  -- the success of a first factor: with a second one enrolled the gate stays shut
  abbrev pub first_factor : App S → Bool × App S
  first_factor a = if totp_enabled K a.env.secrets then (true, a) else (false, unlock a)

  abbrev pub prompt : Bool → App S → (Bool × Bool) × App S
  prompt false a = ((false, false), a)
  prompt true a = let r = first_factor a in ((true, r.0), r.1)

  -- `sheet` is the answer of the system's prompt; the result is what `done` gets
  unfoldable pub unlock_with_biometric : Bool → ℕ → App S → (Bool × Bool) × App S
  unfolding unlock
  unlock_with_biometric sheet now a =
      if a.has_lock && a.snap.app_lock_enabled && a.snap.biometric_enabled
        && a.snap.biometric_available
      then (let r = retry_delay now a.env in
          let a' = record a { env = r.1 } in
          if ltb 0 (wait_read r.0) then ((false, false), a') else prompt sheet a')
      else ((false, false), a)

  -- the second factor goes with the PIN, and an error of its removal is dropped
  unfoldable pub remove_pin : App S → Result Error (Unit {0}) × App S
  unfolding unlock
  remove_pin a =
      let s = if totp_enabled K a.env.secrets then (remove_totp K a.env).1 else a.env in
      let r = remove K s in
      let a' = record a { env = r.1 } in after_call r.0 (if succeeded r.0 then unlock a' else a')

  unfoldable pub remove_totp_factor : App S → Result Error (Unit {0}) × App S
  remove_totp_factor a = let r = remove_totp K a.env in after_call r.0 (record a { env = r.1 })

module _ {S : Type 0} (K : Keystore S) (O : Otp) where
  unfoldable pub enroll_totp : Bytes → App S → Result Error (Unit {0}) × App S
  enroll_totp secret a =
      let r = set_totp K O secret a.env in after_call r.0 (record a { env = r.1 })

  -- `unlock_on` is false while a new factor is being confirmed; the attempt is at `now`, the reading
  -- of the wait at `later`
  unfoldable pub verify_totp_code : Bytes → Bool → ℕ → ℕ → App S → (Bool × ℕ) × App S
  unfolding unlock
  verify_totp_code code unlock_on now later a =
      let r = verify_totp K O code now a.env in
      let a' = record a { env = r.1 } in
      let w =
        wait_after (said_yes r.0) later (if said_yes r.0 && unlock_on then unlock a' else a') in
      ((said_yes r.0, w.0), w.1)

module _ {S : Type 0} (K : Keystore S) (C : Kdf) where
  unfoldable pub set_pin : Bytes → Option Bytes → App S → Result Error (Unit {0}) × App S
  set_pin pin random a = let r = set K C pin random a.env in after_call r.0 (record a { env = r.1 })

  -- the result is what `done` gets: whether the PIN is right, the wait, and whether a second factor is
  -- next
  unfoldable pub verify_pin : Bytes → ℕ → ℕ → App S → (Bool × ℕ × Bool) × App S
  unfolding unlock
  verify_pin pin now later a =
      let r = verify K C pin now a.env in
      let a' = record a { env = r.1 } in
      let f = if said_yes r.0 then first_factor K a' else (false, a') in
      let w = wait_after (said_yes r.0) later f.1 in ((said_yes r.0, w.0, f.0), w.1)
