-- ===== src/Applock/StandIns.antt =====
-- Small stand-ins for the libraries that internal/applock uses, and a keystore with a verifier, for the
-- tests.
use vayu_mail_mobile.Base.{
  ℕ, zero, suc, ◌≡◌, refl, Option, none, some, [], ◌∷◌, ◌++◌, ℤ, pos, negsuc, Bytes, codes, length,
  take, drop, take-append_length, drop-append_length, ap,
}
use vayu_mail_mobile.Crypto.Keystore.{Secrets}
use vayu_mail_mobile.Store.Db.{Db}
use vayu_mail_mobile.Applock.Manager.{Env, Kdf, Verifier, verifier_alias}
use vayu_mail_mobile.Applock.Manager.Totp.{Otp}

-- a text cut or filled up with zeros to n bytes
unfoldable pub fit : ℕ → Bytes → Bytes
fit zero s = []
fit (suc n) [] = 0 ∷ fit n []
fit (suc n) (c ∷ s) = c ∷ fit n s

pub length-fit : (n : ℕ) (s : Bytes) → length (fit n s) ≡ n
unfolding fit
length-fit zero s = refl
length-fit (suc n) [] = ap suc (length-fit n [])
length-fit (suc n) (c ∷ s) = ap suc (length-fit n s)

-- an encoding of verifiers as lists of numbers
write_int : ℤ → Bytes → Bytes
write_int (pos n) s = 0 ∷ n ∷ s
write_int (negsuc n) s = 1 ∷ n ∷ s

write_verifier : Verifier → Bytes
unfolding write_int
write_verifier v = write_int v.version (write_int v.iterations (length v.salt ∷ v.salt ++ v.hash))

read_int : ℕ → ℕ → ℤ
read_int zero n = pos n
read_int (suc k) n = negsuc n

unfoldable pub read_verifier : Bytes → Option Verifier
unfolding read_int
read_verifier (a ∷ v ∷ b ∷ i ∷ n ∷ s) =
    some (record {
      version = read_int a v;
      salt = take n s;
      iterations = read_int b i;
      hash = drop n s;
    })
read_verifier _ = none

verifier_of : ℤ → ℤ → Bytes → Bytes → Verifier
verifier_of a b salt hash = record { version = a; salt = salt; iterations = b; hash = hash }

read-write_parts :
    (a b : ℤ) (salt hash : Bytes)
    → read_verifier (write_verifier (verifier_of a b salt hash)) ≡ some (verifier_of a b salt hash)
unfolding read_verifier write_verifier verifier_of
read-write_parts (pos a) (pos b) salt hash =
    rw (take-append_length salt hash, drop-append_length salt hash)
read-write_parts (pos a) (negsuc b) salt hash =
    rw (take-append_length salt hash, drop-append_length salt hash)
read-write_parts (negsuc a) (pos b) salt hash =
    rw (take-append_length salt hash, drop-append_length salt hash)
read-write_parts (negsuc a) (negsuc b) salt hash =
    rw (take-append_length salt hash, drop-append_length salt hash)

read-write_verifier : (v : Verifier) → read_verifier (write_verifier v) ≡ some v
unfolding verifier_of
read-write_verifier v = read-write_parts v.version v.iterations v.salt v.hash

unfoldable pub toy_derive : Bytes → Bytes → ℤ → ℕ → Option Bytes
unfolding fit
toy_derive pin salt rounds n = some (fit n (pin ++ salt))

pub length-toy_derive :
    (pin salt : Bytes) (rounds : ℤ) (n : ℕ) (key : Bytes)
    → toy_derive pin salt rounds n ≡ some key
    → length key ≡ n
unfolding toy_derive
length-toy_derive pin salt rounds n key e =
    let f : fit n (pin ++ salt) ≡ key = cc in rw (← f) (length-fit n (pin ++ salt))

unfoldable pub toy_marshal : Verifier → Option Bytes
unfolding write_verifier
toy_marshal v = some (write_verifier v)

pub read-toy_marshal :
    (v : Verifier) (b : Bytes) → toy_marshal v ≡ some b → read_verifier b ≡ some v
unfolding toy_marshal
read-toy_marshal v b e = let f : write_verifier v ≡ b = cc in rw (← f) (read-write_verifier v)

abbrev pub toy_kdf : Kdf
toy_kdf = record {
  pbkdf2 = toy_derive;
  marshal = toy_marshal;
  unmarshal = read_verifier;
  length-pbkdf2 = length-toy_derive;
  unmarshal-marshal = read-toy_marshal;
}

abbrev pub stored : Verifier
stored = record { version = pos 1; salt = 7 ∷ []; iterations = pos 1; hash = codes "12" }

abbrev pub empty_db : Db
empty_db = record { settings = []; outbox = []; faults = [] }

abbrev pub blob : Bytes
blob = 0 ∷ 1 ∷ 0 ∷ 1 ∷ 1 ∷ 7 ∷ codes "12"

abbrev pub ready : Env Secrets
ready = record { secrets = (verifier_alias, blob) ∷ []; db = empty_db }

-- a MAC of twenty bytes
pub toy_hmac : Bytes → Bytes → Bytes
unfolding fit
toy_hmac key msg = fit 20 (msg ++ key)

pub length-toy_hmac : (key msg : Bytes) → length (toy_hmac key msg) ≡ 20
unfolding toy_hmac
length-toy_hmac key msg = length-fit 20 (msg ++ key)

abbrev pub toy_otp : Otp
toy_otp = record { hmac = toy_hmac; base32 = λ s. some s; length-hmac = length-toy_hmac }
