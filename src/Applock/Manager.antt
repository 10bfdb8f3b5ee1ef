-- ===== src/Applock/Manager.antt =====
-- applock.go: the `Manager`. Its collaborators are the keystore (the interface of Crypto.Keystore),
-- the settings table, and the library code of `Kdf`. One call of a method happens at one instant
-- `now`, nanoseconds since 1970.
pub mod Lockout
pub mod Verify
pub mod Throttle
pub mod Totp
pub mod Codes
use vayu_mail_mobile.Base.{
  ℕ, zero, suc, ◌+◌, ◌-◌, ◌*◌, ◌/◌, ◌^◌, ◌≡◌, ◌<◌, min, Bool, true, false, ◌||◌, Option, none, some,
  [], ◌∷◌, ℤ, pos, negsuc, add64, Bytes, codes, eq_bytes, length, Exec, Result, ok, err, wrap, pure,
  raise, ◌>>=◌, ◌>>◌, ltb, leb, if◌then◌else◌,
}
use vayu_mail_mobile.Base.Decimal.{Parsed, value, syntax, out_of_range, parse_int, atoi_or, itoa}
use vayu_mail_mobile.Crypto.Keystore.{Keystore, KeystoreError}
use vayu_mail_mobile.Store.Db.{Db, DbError}
use vayu_mail_mobile.Store.Settings.{
  applock_failures, applock_locked_until, get_setting, set_setting,
}
use vayu_mail_mobile.Applock.Pin.{valid_pin}
use vayu_mail_mobile.Applock.Ladder.{second, lockout_after}

-- the errors of the package, one for each context that is wrapped around a cause
pub data Error : Type 0 where
  locked_out bad_pin bad_secret : Error
  no_salt derive_failed encode_verifier store_verifier : Error
  no_verifier verifier_corrupt delete_verifier : Error
  read_failures store_failures store_lockout clear_failures clear_window : Error
  totp_secret store_totp delete_totp : Error
  -- an index out of range
  panic : Error

pub record Verifier : Type 0 where
  pub version : ℤ
  pub salt : Bytes
  pub iterations : ℤ
  pub hash : Bytes

-- crypto/pbkdf2 over SHA-256, and encoding/json on `verifier`
pub record Kdf : Type 0 where
  pub pbkdf2 : Bytes → Bytes → ℤ → ℕ → Option Bytes
  pub marshal : Verifier → Option Bytes
  pub unmarshal : Bytes → Option Verifier
  -- a derived key has the length that was asked for
  pub length-pbkdf2 :
      (pin salt : Bytes) (rounds : ℤ) (n : ℕ) (key : Bytes)
      → pbkdf2 pin salt rounds n ≡ some key
      → length key ≡ n
  -- what was encoded is decoded to itself
  pub unmarshal-marshal : (v : Verifier) (b : Bytes) → marshal v ≡ some b → unmarshal b ≡ some v

abbrev pub verifier_alias : Bytes
verifier_alias = codes "vayumail-applock-v1"

abbrev pub pbkdf2_iterations : ℕ
pbkdf2_iterations = 600000

abbrev pub key_len : ℕ
key_len = 32

abbrev pub salt_len : ℕ
salt_len = 16

-- the stores that the methods write
pub record Env (S : Type 0) : Type 0 where
  pub secrets : S
  pub db : Db

-- what remains of `sec`, Unix seconds, at `now`: `time.Unix(sec, 0).Sub(now)` with negative results
-- taken to 0. `time.Unix` counts from year 1 in an int64, so a huge `sec` wraps into the past; `Sub`
-- saturates at the largest Duration.
abbrev pub time_left : ℤ → ℕ → ℕ
time_left (negsuc _) now = 0
time_left (pos sec) now =
    if leb (2 ^ 63) (sec + 62135596800) then 0 else min (sec * second - now) (2 ^ 63 - 1)

abbrev pub left_of : Parsed → ℕ → ℕ
left_of (value sec) now = time_left sec now
left_of syntax now = 0
left_of (out_of_range _) now = 0

-- the wait that a raw setting stands for
unfoldable pub wait_of : Bytes → ℕ → ℕ
wait_of [] now = 0
wait_of (c ∷ raw) now = left_of (parse_int (c ∷ raw)) now

abbrev pub delay_of : Result DbError Bytes → ℕ → ℕ
delay_of (ok raw) now = wait_of raw now
delay_of (err _) now = 0

module _ {S : Type 0} where
  abbrev pub on_db : {A : Type 0} → (DbError → Error) → Exec Db DbError A → Exec (Env S) Error A
  on_db f m s = (wrap f (m s.db).0, record s { db = (m s.db).1 })

  abbrev pub on_secrets :
      {A : Type 0} → (KeystoreError → Error) → Exec S KeystoreError A → Exec (Env S) Error A
  on_secrets f m s = (wrap f (m s.secrets).0, record s { secrets = (m s.secrets).1 })

  abbrev pub lift : {A : Type 0} → Error → Option A → Exec (Env S) Error A
  lift e none = raise e
  lift e (some a) = pure a

  unfoldable pub retry_delay : ℕ → Exec (Env S) Error ℕ
  retry_delay now s =
      let r = get_setting applock_locked_until s.db in
      (ok (delay_of r.0 now), record s { db = r.1 })

  unfoldable pub clear_lockout : Exec (Env S) Error (Unit {0})
  clear_lockout = do
    on_db (λ _. clear_failures) (set_setting applock_failures [])
    on_db (λ _. clear_window) (set_setting applock_locked_until [])

  -- the failure counter is written first, then the window, if the count has one
  unfoldable pub record_failure : ℕ → Exec (Env S) Error (Unit {0})
  record_failure now = do
    raw ← on_db (λ _. read_failures) (get_setting applock_failures)
    let n = add64 (atoi_or raw) 1
    on_db (λ _. store_failures) (set_setting applock_failures (itoa n))
    let d = lockout_after n
    if ltb 0 d
        then on_db (λ _. store_lockout)
            (set_setting applock_locked_until (itoa (pos ((now + d) / second))))
        else pure tt

  -- `return false, m.recordFailure(ctx)`
  unfoldable pub refuse : ℕ → Exec (Env S) Error Bool
  refuse now = do record_failure now; pure false

  -- success: an error in the bookkeeping is logged and dropped
  unfoldable pub admit : Exec (Env S) Error Bool
  admit s = (ok true, (clear_lockout s).1)

abbrev well_formed_parts : ℤ → Bytes → Bytes → Bool
well_formed_parts (negsuc _) salt hash = false
well_formed_parts (pos zero) salt hash = false
well_formed_parts (pos (suc n)) [] hash = false
well_formed_parts (pos (suc n)) (c ∷ salt) [] = false
well_formed_parts (pos (suc n)) (c ∷ salt) (b ∷ hash) = true

-- not (v.Iterations <= 0 || len(v.Salt) == 0 || len(v.Hash) == 0)
abbrev pub well_formed : Verifier → Bool
well_formed v = well_formed_parts v.iterations v.salt v.hash

module _ {S : Type 0} (K : Keystore S) where
  unfoldable pub enabled : S → Bool
  enabled s = elim (K.fetch verifier_alias s) [ ok _ ↦ true | err _ ↦ false ]

  unfoldable pub remove : Exec (Env S) Error (Unit {0})
  remove = do on_secrets (λ _. delete_verifier) (K.delete verifier_alias); clear_lockout

module _ {S : Type 0} (K : Keystore S) (C : Kdf) where
  -- `random` is what rand.Read put into the salt, none if it failed
  unfoldable pub set : Bytes → Option Bytes → Exec (Env S) Error (Unit {0})
  set pin random =
      if valid_pin pin
      then (do
        salt_bytes ← lift no_salt random
        key ← lift derive_failed (C.pbkdf2 pin salt_bytes (pos pbkdf2_iterations) key_len)
        blob ← lift encode_verifier (
            C.marshal (record {
              version = pos 1;
              salt = salt_bytes;
              iterations = pos pbkdf2_iterations;
              hash = key;
            }))
        on_secrets (λ _. store_verifier) (K.store verifier_alias blob)
        clear_lockout)
      else raise bad_pin

  -- the part of `Verify` behind the decoded verifier
  unfoldable pub compare_pin : Bytes → Verifier → ℕ → Exec (Env S) Error Bool
  compare_pin pin v now =
      if well_formed v
      then (do
        derived ← lift derive_failed (C.pbkdf2 pin v.salt v.iterations (length v.hash))
        if eq_bytes derived v.hash then admit else refuse now)
      else raise verifier_corrupt

  unfoldable pub verify : Bytes → ℕ → Exec (Env S) Error Bool
  verify pin now = do
    wait ← retry_delay now
    if ltb 0 wait then raise locked_out else (do
      blob ← on_secrets (λ _. no_verifier) (λ s. (K.fetch verifier_alias s, s))
      v ← lift verifier_corrupt (C.unmarshal blob)
      compare_pin pin v now)
