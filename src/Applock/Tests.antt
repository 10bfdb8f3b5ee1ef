-- ===== src/Applock/Tests.antt =====
-- The app lock at concrete inputs, over the memory keystore and small stand-ins for the libraries.
use vayu_mail_mobile.Base.{
  ℕ, ◌%◌, ◌^◌, ◌+◌, ◌-◌, ◌*◌, ◌≡◌, ◌≤◌, ◌<◌, ◌↔◌, refl, Bool, true, some, List, [], ◌∷◌, ◌++◌,
  Bytes, codes, eq_bytes, trim_space, length, All, ok, arith, ap, if◌then◌else◌, add64,
}
use vayu_mail_mobile.Crypto.Keystore.{
  Secrets, memory_keystore, memory_fetch, memory_store, find_secret,
}
use vayu_mail_mobile.Store.Settings.{value_of}
use vayu_mail_mobile.Base.Decimal.{parse_int, atoi_or}
use vayu_mail_mobile.Applock.Pin.{valid_pin, IsDigit}
use vayu_mail_mobile.Applock.Ladder.{second}
use vayu_mail_mobile.Applock.Manager.{Env, Verifier, well_formed, retry_delay, set, verify, wait_of}
use vayu_mail_mobile.Applock.Manager.Lockout.{
  rows, with_rows, cleared, failed, failures_of, window_of,
}
use vayu_mail_mobile.Applock.Manager.Verify.{
  Holds, derived, verify_decides, verify_sound, verify-set,
}
use vayu_mail_mobile.Applock.Manager.Throttle.{Attempt, answered, wrong_pins_throttled}
use vayu_mail_mobile.Applock.Manager.Totp.{totp_alias, big_endian, hotp, verify_totp}
use vayu_mail_mobile.Applock.Manager.Codes.{
  IsTruncation, read_digits, IsCurrent, hotp_total, verify_totp_decides,
}
use vayu_mail_mobile.Applock.StandIns.{
  fit, toy_derive, toy_marshal, read_verifier, toy_kdf, stored, empty_db, blob, ready, toy_otp,
}

ready-Holds : Holds memory_keystore toy_kdf stored ready
unfolding memory_fetch find_secret eq_bytes read_verifier
ready-Holds = (blob, refl, refl)

right_pin :
    verify memory_keystore toy_kdf (codes "1234") 5 ready ≡ (ok true, with_rows ready (cleared []))
unfolding eq_bytes value_of wait_of toy_derive
right_pin =
    verify_decides memory_keystore toy_kdf (codes "1234") 5 ready stored (codes "12") refl refl
      ready-Holds refl refl

verify_sound_example :
    ((retry_delay 5 ready).0 ≡ ok 0)
    × ((v : Verifier) × Holds memory_keystore toy_kdf v ready
        × (well_formed v ≡ true)
        × (derived memory_keystore toy_kdf (codes "1234") v ≡ some v.hash))
verify_sound_example =
    verify_sound memory_keystore toy_kdf (codes "1234") 5 ready (ap (λ r. r.0) right_pin)

-- a window that is open for a hundred seconds after the epoch
abbrev locked : Env Secrets
locked = record ready {
  db = record empty_db { settings = (codes "applock_locked_until", codes "100") ∷ [] };
}

locked_window : window_of (rows locked) 5 ≡ 99999999995
unfolding value_of eq_bytes wait_of parse_int
locked_window = refl

locked_open : 0 < window_of (rows locked) 5
locked_open = rw locked_window (omega arith)

abbrev pin_key : Bytes
pin_key = codes "1234" ++ 7 ∷ fit 27 []

abbrev set_blob : Bytes
set_blob = 0 ∷ 1 ∷ 0 ∷ 600000 ∷ 1 ∷ 7 ∷ pin_key

verify-set_example :
    ((set memory_keystore toy_kdf (codes "1234") (some (7 ∷ [])) locked).0 ≡ ok tt)
    × ((verify memory_keystore toy_kdf
          (codes "9999")
          5
          (set memory_keystore toy_kdf (codes "1234") (some (7 ∷ [])) locked).1).0
        ≡ ok (eq_bytes (codes "9999" ++ 7 ∷ fit 27 []) pin_key))
unfolding toy_derive toy_marshal memory_store valid_pin
verify-set_example =
    verify-set memory_keystore toy_kdf (codes "1234") (7 ∷ []) pin_key (codes "9999")
      (codes "9999" ++ 7 ∷ fit 27 []) set_blob 5 locked refl refl (omega arith) refl refl refl refl

abbrev guesses : List Attempt
guesses = (codes "0000", 10) ∷ (codes "9999", 20) ∷ []

wrong_pins_throttled_example :
    10 + (answered memory_keystore toy_kdf guesses ready - 11) * (899 * second) ≤ 20
unfolding toy_derive eq_bytes atoi_or value_of
wrong_pins_throttled_example =
    wrong_pins_throttled memory_keystore toy_kdf stored guesses ready 10 refl ready-Holds refl refl
      ((codes "00", refl, refl), ((codes "99", refl, refl), tt)) (omega arith) (omega arith)

hotp_total_example :
    (code : Bytes) × (hotp toy_otp (codes "key") 3 ≡ some code)
    × (length code ≡ 6)
    × All IsDigit code
    × ((n : ℕ) × IsTruncation toy_otp (toy_otp.hmac (codes "key") (big_endian 8 3)) n
        × (read_digits code 0 ≡ n % 10 ^ 6))
hotp_total_example = hotp_total toy_otp (codes "key") 3

abbrev enrolled : Env Secrets
enrolled = record { secrets = (totp_alias, codes "key") ∷ []; db = empty_db }

abbrev enrolled_locked : Env Secrets
enrolled_locked = record enrolled { db = locked.db }

verify_totp_decides_example :
    (b : Bool) × ((b ≡ true)
      ↔ IsCurrent toy_otp (codes "key") (trim_space (codes " 123456")) (60 * second))
    × (verify_totp memory_keystore toy_otp (codes " 123456") (60 * second) enrolled ≡ (
      ok b,
      with_rows enrolled (
          if b
          then cleared (rows enrolled)
          else failed (rows enrolled) (add64 (failures_of (rows enrolled)) 1) (60 * second)),
    ))
unfolding memory_fetch find_secret eq_bytes value_of wait_of
verify_totp_decides_example =
    verify_totp_decides memory_keystore toy_otp (codes " 123456") (codes "key") (60 * second)
      enrolled refl refl refl (omega arith) (omega arith)
