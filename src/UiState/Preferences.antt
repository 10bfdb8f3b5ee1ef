-- ===== src/UiState/Preferences.antt =====
-- ui/state/lockstate.go and ui/state/prefsetters.go: the preferences, as they are read into a snapshot and
-- as the settings screen writes them. `reload` is what the loader does with them after a `Refresh`
-- (ui/state/appstate_loader.go).
use vayu_mail_mobile.Base.{
  Bool, true, false, ◌&&◌, not, List, [], ◌∷◌, ◌++◌, ℤ, pos, negsuc, Bytes, codes, eq_bytes, Result,
  ok, err, ltb, if◌then◌else◌,
}
use vayu_mail_mobile.Base.Decimal.{Parsed, value, syntax, out_of_range, parse_int, itoa}
use vayu_mail_mobile.Crypto.Keystore.{Keystore}
use vayu_mail_mobile.Store.Db.{DbError}
use vayu_mail_mobile.Store.Settings.{
  notifications, notify_preview, reduce_motion, rich_html, biometric_unlock, applock_timeout,
  get_setting, set_setting,
}
use vayu_mail_mobile.Applock.Manager.{Env, enabled}
use vayu_mail_mobile.Applock.Manager.Totp.{totp_enabled}

-- the fields of `Snapshot` that the preferences and the gate use
pub record Prefs : Type 0 where
  pub locked : Bool
  pub app_lock_enabled : Bool
  pub totp_on : Bool
  pub biometric_available : Bool
  pub biometric_enabled : Bool
  pub app_lock_timeout : ℤ
  pub notifications_on : Bool
  pub notify_preview_on : Bool
  pub motion_reduced : Bool
  pub rich_html_on : Bool

-- `AppState`. `has_lock` says that a lock manager is wired; `available` is what biometric.Available
-- reports on this device; `notices` are the texts of the snackbar so far.
pub record App (S : Type 0) : Type 0 where
  pub env : Env S
  pub has_lock : Bool
  pub available : Bool
  pub locked : Bool
  pub snap : Prefs
  pub motion_on : Bool
  pub refresh_queued : Bool
  pub notices : List Bytes

-- a setting that was read and has the value
abbrev pub reads_as : Result DbError Bytes → Bytes → Bool
reads_as (ok raw) v = eq_bytes raw v
reads_as (err _) v = false

-- AppLockTimeout of a raw setting: 60 unless it is a positive number; strconv.Atoi of "" fails
abbrev positive_or_60 : ℤ → ℤ
positive_or_60 (pos n) = if ltb 0 n then pos n else pos 60
positive_or_60 (negsuc _) = pos 60

abbrev parsed_timeout : Parsed → ℤ
parsed_timeout (value sec) = positive_or_60 sec
parsed_timeout syntax = pos 60
parsed_timeout (out_of_range _) = pos 60

abbrev pub timeout_of : Result DbError Bytes → ℤ
timeout_of (ok raw) = parsed_timeout (parse_int raw)
timeout_of (err _) = pos 60

abbrev pub flag : Bool → Bytes
flag on = if on then codes "1" else codes "0"

module _ {S : Type 0} where
  -- one read of a setting while a snapshot is built
  abbrev read_setting : Bytes → Env S → Result DbError Bytes × Env S
  read_setting key s = let r = get_setting key s.db in (r.0, record s { db = r.1 })

  abbrev pub refresh : App S → App S
  refresh a = record a { refresh_queued = true }

  -- SetNotifications, SetNotifyPreview, SetBiometric and SetAppLockTimeout differ in the key and the
  -- value
  abbrev pub after_setting : Result DbError (Unit {0}) → App S → App S
  after_setting (ok _) a = refresh a
  after_setting (err _) a = record a { notices = a.notices ++ codes "Could not save setting" ∷ [] }

  unfoldable pub save_setting : Bytes → Bytes → App S → App S
  save_setting key v a =
      let r = set_setting key v a.env.db in
      after_setting r.0 (record a { env = record (a.env) { db = r.1 } })

  abbrev pub set_notifications : Bool → App S → App S
  set_notifications on a = save_setting notifications (flag on) a

  abbrev pub set_notify_preview : Bool → App S → App S
  set_notify_preview on a = save_setting notify_preview (flag on) a

  abbrev pub set_biometric : Bool → App S → App S
  set_biometric on a = save_setting biometric_unlock (flag on) a

  -- anim.SetMotionEnabled comes first, whatever becomes of the setting
  abbrev pub set_motion_reduced : Bool → App S → App S
  set_motion_reduced reduced a =
      save_setting reduce_motion (flag reduced) (record a { motion_on = not reduced })

  abbrev pub set_rich_html : Bool → App S → App S
  set_rich_html on a = save_setting rich_html (flag on) a

  abbrev pub set_app_lock_timeout : ℤ → App S → App S
  set_app_lock_timeout sec a = save_setting applock_timeout (itoa sec) a

module _ {S : Type 0} (K : Keystore S) where
  -- `loadPrefs`, with the new snapshot's gate as `commit` sets it
  unfoldable pub load_prefs : App S → Prefs × Env S
  load_prefs a =
      let n = read_setting notifications a.env in
      let p = read_setting notify_preview n.1 in
      let m = read_setting reduce_motion p.1 in
      let h = read_setting rich_html m.1 in
      let b = read_setting biometric_unlock h.1 in
      let t = read_setting applock_timeout b.1 in
      (
        record {
          locked = a.locked;
          app_lock_enabled = a.has_lock && enabled K a.env.secrets;
          totp_on = a.has_lock && totp_enabled K a.env.secrets;
          biometric_available = a.available;
          biometric_enabled = reads_as b.0 (codes "1");
          app_lock_timeout = timeout_of t.0;
          notifications_on = not (reads_as n.0 (codes "0"));
          notify_preview_on = not (reads_as p.0 (codes "0"));
          motion_reduced = reads_as m.0 (codes "1");
          rich_html_on = reads_as h.0 (codes "1");
        },
        t.1,
      )

  unfoldable pub reload : App S → App S
  reload a =
      let r = load_prefs a in
      record a { env = r.1; snap = r.0; motion_on = not r.0.motion_reduced; refresh_queued = false }
