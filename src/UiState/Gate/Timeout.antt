-- ===== src/UiState/Gate/Timeout.antt =====
-- The idle limit of ui/state/lockstate.go, from the setting to the lock.
use vayu_mail_mobile.Base.{
  ℕ, ap, ◌∙◌, ◌*◌, ◌^◌, ◌≡◌, ◌<◌, refl, Bool, true, false, ◌&&◌, not, [], pos, ok, leb,
  if◌then◌else◌, arith, eq_bytes_refl,
}
use vayu_mail_mobile.Base.Decimal.{parse_int-itoa, itoa}
use vayu_mail_mobile.Store.Db.{Db}
use vayu_mail_mobile.Crypto.Keystore.{Keystore}
use vayu_mail_mobile.Store.Settings.{
  get_setting, notifications, notify_preview, reduce_motion, rich_html, biometric_unlock,
  applock_timeout, value_of, value_of-put_key, get_setting-healthy, set_setting-healthy, put_key,
}
use vayu_mail_mobile.Applock.Ladder.{second}
use vayu_mail_mobile.Applock.Manager.{enabled}
use vayu_mail_mobile.UiState.Gate.{set_gate, idle_limit, maybe_auto_lock}
use vayu_mail_mobile.UiState.Preferences.{
  App, set_app_lock_timeout, save_setting, reload, load_prefs, timeout_of,
}

idle_limit_lem :
    (sec : ℕ)
    → sec * second < 2 ^ 63
    → idle_limit (pos sec) ≡ (if leb 30 sec then sec * second else 30 * second)
idle_limit_lem sec h = ground arith

parsed_choice : (sec : ℕ) → 0 < sec → sec < 2 ^ 63 → timeout_of (ok (itoa (pos sec))) ≡ pos sec
parsed_choice sec p b = rw (parse_int-itoa (pos sec) b) (ground arith)

-- the six reads of a reload change nothing on a healthy database
reads_timeout :
    (db : Db)
    → db.faults ≡ []
    → (get_setting applock_timeout
        (get_setting biometric_unlock
          (get_setting rich_html
            (get_setting reduce_motion
              (get_setting notify_preview (get_setting notifications db).1).1).1).1).1).0
      ≡ ok (value_of applock_timeout db.settings)
reads_timeout db h =
    rw
      (
        get_setting-healthy notifications db h,
        get_setting-healthy notify_preview db h,
        get_setting-healthy reduce_motion db h,
        get_setting-healthy rich_html db h,
        get_setting-healthy biometric_unlock db h,
        get_setting-healthy applock_timeout db h,
      )
      refl

passes : (b c d e : Bool) → b ≡ true → c ≡ true → d ≡ false → (b && c && not d && e) ≡ e
passes b c d e hb hc hd = rw (hb, hc, hd)

module _ {S : Type 0} (K : Keystore S) where
  -- the state once `sec` has been chosen as the idle window, and loaded
  abbrev pub chosen : ℕ → App S → App S
  chosen sec a = reload K (set_app_lock_timeout (pos sec) a)

  chosen_timeout :
      (sec : ℕ) (a : App S)
      → a.env.db.faults ≡ []
      → 0 < sec
      → sec < 2 ^ 63
      → (chosen sec a).snap.app_lock_timeout ≡ pos sec
  unfolding reload load_prefs save_setting
  chosen_timeout sec a h p b =
      let db' = record (a.env.db) {
        settings = put_key applock_timeout (itoa (pos sec)) a.env.db.settings;
      } in
      rw (set_setting-healthy applock_timeout (itoa (pos sec)) a.env.db h) (
        rw
          (
            reads_timeout db' h,
            value_of-put_key applock_timeout applock_timeout (itoa (pos sec)) a.env.db.settings,
            eq_bytes_refl applock_timeout,
          )
          (parsed_choice sec p b))

  chosen_gate :
      (sec : ℕ) (a : App S)
      → a.env.db.faults ≡ []
      → ((chosen sec a).has_lock ≡ a.has_lock)
        × ((chosen sec a).locked ≡ a.locked)
        × ((chosen sec a).snap.app_lock_enabled ≡ (a.has_lock && enabled K a.env.secrets))
  unfolding reload load_prefs save_setting
  chosen_gate sec a h =
      rw (set_setting-healthy applock_timeout (itoa (pos sec)) a.env.db h) (refl, refl, refl)

  gate_if :
      (t : Bool) (a : App S) → a.locked ≡ false → (if t then set_gate true a else a).locked ≡ t
  gate_if true a o = refl
  gate_if false a o = o

  guarded_lock :
      (gap : ℕ) (a : App S)
      → a.has_lock ≡ true
      → a.locked ≡ false
      → a.snap.app_lock_enabled ≡ true
      → (maybe_auto_lock gap a).locked ≡ leb (idle_limit a.snap.app_lock_timeout) gap
  unfolding maybe_auto_lock
  guarded_lock gap a l o e =
      let late = leb (idle_limit a.snap.app_lock_timeout) gap in
      gate_if (a.has_lock && a.snap.app_lock_enabled && not a.locked && late) a o
      ∙ passes a.has_lock a.snap.app_lock_enabled a.locked late l e o

  -- On a healthy database, once a positive number of seconds (up to 292 years) has been chosen and
  -- loaded, an open gate with a PIN locks at a gap without frames exactly if the gap is as long as the
  -- choice and at least thirty seconds.
  pub locks_when_idle :
      (sec gap : ℕ) (a : App S)
      → a.env.db.faults ≡ []
      → a.has_lock ≡ true
      → enabled K a.env.secrets ≡ true
      → a.locked ≡ false
      → 0 < sec
      → sec * second < 2 ^ 63
      → (maybe_auto_lock gap (chosen sec a)).locked
        ≡ leb (if leb 30 sec then sec * second else 30 * second) gap
  locks_when_idle sec gap a h l e o p b =
      let (same_lock, same_gate, on) = chosen_gate sec a h in
      guarded_lock gap (chosen sec a) (same_lock ∙ l) (same_gate ∙ o) (on ∙ rw (l, e) refl)
      ∙ rw (chosen_timeout sec a h p (omega arith)) (ap (λ d. leb d gap) (idle_limit_lem sec b))
