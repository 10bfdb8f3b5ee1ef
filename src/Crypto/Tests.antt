-- ===== src/Crypto/Tests.antt =====
-- The sealed keystore at concrete inputs, over a small stand-in for the cipher and the encodings.
use vayu_mail_mobile.Base.{
  List, ℕ, zero, suc, ◌≡◌, refl, Bool, true, false, Option, none, some, [], ◌∷◌, ◌++◌, length, take,
  drop, take-append_length, drop-append_length, Bytes, codes, eq_bytes, ok, err, if◌then◌else◌, ap,
}
use vayu_mail_mobile.Crypto.Keystore.{Secrets, find_secret, not_written}
use vayu_mail_mobile.Crypto.MasterKey.{Answer, success, interleave, start_with}
use vayu_mail_mobile.Crypto.MasterKey.Agreement.{keys_agree}
use vayu_mail_mobile.Crypto.Sealed.{
  Sealing, Machine, Sealed, sealed_fetch, sealed_store, sealed_delete, reopen,
}
use vayu_mail_mobile.Crypto.Sealed.Durable.{store_survives, failed_delete_returns}

-- a text with its length in front
put_text : Bytes → Bytes → Bytes
put_text b rest = length b ∷ b ++ rest

write_entries : Secrets → Bytes
unfolding put_text
write_entries [] = []
write_entries ((a, v) ∷ m) = put_text a (put_text v (write_entries m))

count : Secrets → ℕ
count [] = 0
count ((a, v) ∷ m) = suc (count m)

read_entries : ℕ → Bytes → Secrets
read_entries zero b = []
read_entries (suc n) [] = []
read_entries (suc n) (k ∷ b) =
    let rest = read_entries n (drop (suc (elim (drop k b) [ [] ↦ 0 | c ∷ _ ↦ c ])) (drop k b)) in
    (take k b, take (elim (drop k b) [ [] ↦ 0 | c ∷ _ ↦ c ]) (drop 1 (drop k b))) ∷ rest

toy_marshal : Secrets → Option Bytes
unfolding write_entries count
toy_marshal m = some (count m ∷ write_entries m)

toy_unmarshal : Bytes → Option Secrets
unfolding read_entries
toy_unmarshal [] = none
toy_unmarshal (n ∷ b) = some (read_entries n b)

read-write_entries : (m : Secrets) → read_entries (count m) (write_entries m) ≡ m
unfolding read_entries write_entries count put_text
read-write_entries [] = refl
read-write_entries ((a, v) ∷ m) =
    let t = length v ∷ v ++ write_entries m in
    rw
      (
        take-append_length a t,
        drop-append_length a t,
        take-append_length v (write_entries m),
        drop-append_length v (write_entries m),
        read-write_entries m,
      )
      refl

marshalled :
    (m : Secrets) (raw : Bytes)
    → toy_marshal m ≡ some raw
    → (n : Secrets) × (toy_unmarshal raw ≡ some n)
      × ((a : Bytes) → find_secret a n ≡ find_secret a m)
unfolding toy_marshal toy_unmarshal
marshalled m raw h =
    let e : count m ∷ write_entries m ≡ raw = cc in
    (m, rw (← e) (ap some (read-write_entries m)), λ a. refl)

abbrev toy_sealing : Sealing
toy_sealing = record {
  valid_key = λ _. true;
  nonce_size = 2;
  seal = λ key nonce secret alias. secret;
  open_sealed = λ key nonce secret alias. some secret;
  encode = λ b. b;
  decode = λ b. some b;
  marshal = toy_marshal;
  unmarshal = toy_unmarshal;
  open-seal = λ key nonce secret alias _. refl;
  decode-encode = λ b. refl;
  unmarshal-marshal = marshalled;
}

-- a disk that takes one write and refuses the next
abbrev toy_writes : ℕ → Bool
toy_writes zero = true
toy_writes (suc n) = false

two_bytes : (n : ℕ) (b : Bytes) → some (n ∷ 7 ∷ []) ≡ some b → length b ≡ 2
two_bytes n b h = let e : n ∷ 7 ∷ [] ≡ b = cc in rw (← e) refl

abbrev toy_machine : Machine toy_sealing
toy_machine = record {
  nonce = λ n. some (n ∷ 7 ∷ []);
  writes = toy_writes;
  length-nonce = two_bytes;
}

abbrev key : Option Bytes
key = some (codes "master")

abbrev new_store : Sealed
new_store = record { entries = []; file = none; drawn = 0; written = 0 }

abbrev mailbox : Bytes
mailbox = codes "mailbox"

stored : (sealed_store toy_sealing key toy_machine mailbox (codes "pw") new_store).0 ≡ ok tt
unfolding sealed_store toy_marshal
stored = refl

store_survives_example :
    (t : Sealed) × (reopen toy_sealing
        (sealed_store toy_sealing key toy_machine mailbox (codes "pw") new_store).1
      ≡ ok t)
    × ((b : Bytes)
        → sealed_fetch toy_sealing key b t ≡ (
            if eq_bytes mailbox b
            then ok (codes "pw")
            else sealed_fetch toy_sealing key b new_store))
store_survives_example =
    store_survives toy_sealing key toy_machine mailbox (codes "pw") new_store stored

abbrev filled_store : Sealed
filled_store = record {
  entries = (mailbox, 0 ∷ 7 ∷ codes "pw") ∷ [];
  file = some (1 ∷ 7 ∷ mailbox ++ 4 ∷ 0 ∷ 7 ∷ codes "pw");
  drawn = 1;
  written = 1;
}

failed_delete_returns_example :
    let first = sealed_delete toy_sealing key toy_machine mailbox filled_store in
    let second = sealed_delete toy_sealing key toy_machine mailbox first.1 in
    (first.0 ≡ err not_written)
    × (second.0 ≡ ok tt)
    × ((u : Sealed) × (reopen toy_sealing second.1 ≡ ok u)
        × (sealed_fetch toy_sealing key mailbox u ≡ ok (codes "pw")))
unfolding sealed_fetch reopen toy_unmarshal read_entries find_secret eq_bytes
failed_delete_returns_example =
    failed_delete_returns toy_sealing key toy_machine mailbox (codes "pw") filled_store filled_store
      refl refl refl refl

-- two providers that both find no file, and link one behind the other
abbrev word : Bytes
word = codes "0123456789abcdef0123456789abcdef"

abbrev other_word : Bytes
other_word = codes "fedcba9876543210fedcba9876543210"

abbrev race : List (ℕ × Answer)
race =
    (0, success [])
    ∷ (1, success [])
    ∷ (0, success word)
    ∷ (1, success other_word)
    ∷ (1, success [])
    ∷ (0, success [])
    ∷ (0, success [])
    ∷ []

keys_agree_example :
    (other_word ≡ other_word)
    × ((interleave race (start_with none)).file ≡ some other_word)
    × ((interleave [] (interleave race (start_with none))).file ≡ some other_word)
unfolding interleave start_with
keys_agree_example = keys_agree none race [] 0 1 other_word other_word refl refl
