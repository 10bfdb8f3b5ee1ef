-- ===== src/UiState/GateTests.antt =====
-- The gate of ui/state/lockstate.go at concrete inputs.
use vayu_mail_mobile.Base.{
  ◌*◌, ◌≡◌, refl, true, false, List, [], ◌∷◌, pos, codes, leb, if◌then◌else◌, arith, eq_bytes,
}
use vayu_mail_mobile.Crypto.Keystore.{Secrets, memory_keystore, memory_fetch, find_secret}
use vayu_mail_mobile.Applock.Ladder.{second}
use vayu_mail_mobile.Applock.Manager.{enabled}
use vayu_mail_mobile.Applock.StandIns.{ready}
use vayu_mail_mobile.UiState.Gate.{maybe_auto_lock}
use vayu_mail_mobile.UiState.Preferences.{Prefs, App}
use vayu_mail_mobile.UiState.Gate.Opening.{Call, locking, idling, trying_pin}
use vayu_mail_mobile.UiState.Gate.Timeout.{chosen, locks_when_idle}

abbrev prefs : Prefs
prefs = record {
  locked = true;
  app_lock_enabled = true;
  totp_on = false;
  biometric_available = false;
  biometric_enabled = false;
  app_lock_timeout = pos 60;
  notifications_on = true;
  notify_preview_on = true;
  motion_reduced = false;
  rich_html_on = false;
}

abbrev shut : App Secrets
shut = record {
  env = ready;
  has_lock = true;
  available = false;
  locked = true;
  snap = prefs;
  motion_on = true;
  refresh_queued = false;
  notices = [];
}

abbrev visit : List Call
visit = idling 5 ∷ locking ∷ trying_pin (codes "1234") 7 8 ∷ []

abbrev passed : App Secrets
passed = record shut { locked = false }

locks_when_idle_example :
    (maybe_auto_lock (45 * second) (chosen memory_keystore 45 passed)).locked
    ≡ leb (if leb 30 45 then 45 * second else 30 * second) (45 * second)
unfolding memory_fetch find_secret eq_bytes enabled
locks_when_idle_example =
    locks_when_idle memory_keystore 45 (45 * second) passed refl refl refl refl (omega arith)
      (omega arith)
