-- ===== src/Applock/Manager/Totp.antt =====
-- totp.go: the second factor, with RFC 4226 codes over HMAC-SHA-1.
use vayu_mail_mobile.Base.{
  pos, ℕ, zero, suc, ◌+◌, ◌-◌, ◌*◌, ◌/◌, ◌%◌, ◌^◌, ◌≡◌, Bool, true, false, ◌||◌, Option, none, some,
  List, [], ◌∷◌, ◌++◌, map, keep, Bytes, codes, eq_bytes, upper, trim_right, trim_space, length,
  drop, Exec, Result, ok, err, raise, ◌>>=◌, ltb, ◌==◌, not, if◌then◌else◌,
}
use vayu_mail_mobile.Base.Decimal.{itoa}
use vayu_mail_mobile.Crypto.Keystore.{Keystore}
use vayu_mail_mobile.Applock.Ladder.{second}
use vayu_mail_mobile.Applock.Manager.{
  Env, Error, locked_out, bad_secret, totp_secret, store_totp, delete_totp, panic, on_secrets, lift,
  retry_delay, refuse, admit,
}

-- crypto/hmac over SHA-1, which gives 20 bytes, and the alphabet of encoding/base32
pub record Otp : Type 0 where
  pub hmac : Bytes → Bytes → Bytes
  pub base32 : Bytes → Option Bytes
  pub length-hmac : (key msg : Bytes) → length (hmac key msg) ≡ 20

abbrev pub totp_alias : Bytes
totp_alias = codes "vayumail-applock-totp-v1"

-- the text that is decoded: trimmed, without spaces, in upper case, without padding
unfoldable pub normal_secret : Bytes → Bytes
unfolding upper trim_space trim_right
normal_secret s = trim_right (λ c. c == b'=') (map upper (keep (λ c. not (c == 32)) (trim_space s)))

-- n bytes of a number, the most significant first
unfoldable pub big_endian : ℕ → ℕ → Bytes
big_endian zero n = []
big_endian (suc w) n = big_endian w (n / 256) ++ (n % 256) ∷ []

-- fmt's `%0wd`, w at least 1: a longer number keeps all its digits
unfoldable pub padded : ℕ → ℕ → Bytes
unfolding itoa
padded zero n = if n == 0 then [] else itoa (pos n)
padded (suc w) n = padded w (n / 10) ++ (b'0' + n % 10) ∷ []

-- sum[len(sum)-1]
unfoldable pub last_byte : Bytes → Option ℕ
last_byte [] = none
last_byte (c ∷ []) = some c
last_byte (c ∷ d ∷ s) = last_byte (d ∷ s)

-- binary.BigEndian.Uint32 of the first four bytes
unfoldable pub read_u32 : Bytes → Option ℕ
read_u32 (a ∷ b ∷ c ∷ d ∷ s) = some (((a * 256 + b) * 256 + c) * 256 + d)
read_u32 _ = none

-- `& 0x7FFFFFFF` keeps the low 31 bits
abbrev pub six_digits : Option ℕ → Option Bytes
six_digits none = none
six_digits (some n) = some (padded 6 (n % 2 ^ 31 % 1000000))

-- the slice behind the offset, which is the low four bits of the last byte
abbrev pub truncated : Bytes → Option ℕ → Option Bytes
truncated sum none = none
truncated sum (some last) = six_digits (read_u32 (drop (last % 16) sum))

module _ (O : Otp) where
  unfoldable pub decode_totp_secret : Bytes → Result Error Bytes
  decode_totp_secret s =
      if ltb (length (normal_secret s)) 16
      then err bad_secret
      else elim (O.base32 (normal_secret s)) [ none ↦ err bad_secret | some key ↦ ok key ]

  unfoldable pub hotp : Bytes → ℕ → Option Bytes
  unfolding last_byte read_u32
  hotp key counter = let sum = O.hmac key (big_endian 8 counter) in truncated sum (last_byte sum)

  -- `ok` after the loop over the skews -1, 0 and 1: each candidate is compared
  unfoldable pub any_match : Bytes → List (Option Bytes) → Bool → Option Bool
  any_match code [] found = some found
  any_match code (none ∷ wants) found = none
  any_match code (some want ∷ wants) found = any_match code wants (eq_bytes want code || found)

-- uint64(now.Add(skew * 30s).Unix()) / 30 for the three skews
unfoldable pub counters : ℕ → List ℕ
counters now =
    let u = now / second in
    ((u + (2 ^ 64 - 30)) % 2 ^ 64 / 30) ∷ (u % 2 ^ 64 / 30) ∷ ((u + 30) % 2 ^ 64 / 30) ∷ []

module _ {S : Type 0} (K : Keystore S) where
  unfoldable pub totp_enabled : S → Bool
  totp_enabled s = elim (K.fetch totp_alias s) [ ok _ ↦ true | err _ ↦ false ]

  unfoldable pub remove_totp : Exec (Env S) Error (Unit {0})
  remove_totp = on_secrets (λ _. delete_totp) (K.delete totp_alias)

module _ {S : Type 0} (K : Keystore S) (O : Otp) where
  unfoldable pub set_totp : Bytes → Exec (Env S) Error (Unit {0})
  set_totp secret = do
    key ← λ s. (decode_totp_secret O secret, s)
    on_secrets (λ _. store_totp) (K.store totp_alias key)

  -- the three candidates for a code at `now`
  unfoldable pub candidates : Bytes → ℕ → List (Option Bytes)
  unfolding counters
  candidates key now = map (hotp O key) (counters now)

  unfoldable pub verify_totp : Bytes → ℕ → Exec (Env S) Error Bool
  verify_totp code now = do
    wait ← retry_delay now
    if ltb 0 wait then raise locked_out else (do
      key ← on_secrets (λ _. totp_secret) (λ s. (K.fetch totp_alias s, s))
      found ← lift panic (any_match O (trim_space code) (candidates key now) false)
      if found then admit else refuse now)
