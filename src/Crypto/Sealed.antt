-- ===== src/Crypto/Sealed.antt =====
-- internal/crypto/sealed.go, `SealedKeystore`: secrets sealed under a master key, one entry for each
-- alias, written to one file at every change. What `MasterKey` returns is the argument `provider`, none
-- for its error.
pub mod Laws
pub mod Durable
use vayu_mail_mobile.Base.{
  ℕ, ◌+◌, ◌≡◌, Bool, true, false, Option, none, some, [], ◌∷◌, ◌++◌, Bytes, length, take, drop,
  Exec, Result, ok, err, ltb, if◌then◌else◌,
}
use vayu_mail_mobile.Crypto.Keystore.{
  KeystoreError, key_not_found, no_master_key, no_nonce, corrupt_entry, not_written,
  unreadable_store, Secrets, find_secret, drop_secret,
}

-- crypto/aes with crypto/cipher in GCM mode, encoding/base64, and encoding/json on the entries
pub record Sealing : Type 0 where
  pub valid_key : Bytes → Bool
  pub nonce_size : ℕ
  pub seal : Bytes → Bytes → Bytes → Bytes → Bytes
  pub open_sealed : Bytes → Bytes → Bytes → Bytes → Option Bytes
  pub encode : Bytes → Bytes
  pub decode : Bytes → Option Bytes
  pub marshal : Secrets → Option Bytes
  pub unmarshal : Bytes → Option Secrets
  -- what was sealed opens under the same key, nonce and alias
  pub open-seal :
      (key nonce secret alias : Bytes)
      → valid_key key ≡ true
      → open_sealed key nonce (seal key nonce secret alias) alias ≡ some secret
  pub decode-encode : (b : Bytes) → decode (encode b) ≡ some b
  -- an encoded map is decoded to a map with the same entries, in whatever order
  pub unmarshal-marshal :
      (m : Secrets) (raw : Bytes)
      → marshal m ≡ some raw
      → (n : Secrets) × (unmarshal raw ≡ some n) × ((a : Bytes) → find_secret a n ≡ find_secret a m)

-- the answers of rand.Read to the coming calls, and those of the file system to the coming writes
pub record Machine (Q : Sealing) : Type 0 where
  pub nonce : ℕ → Option Bytes
  pub writes : ℕ → Bool
  pub length-nonce : (n : ℕ) (b : Bytes) → nonce n ≡ some b → length b ≡ Q.nonce_size

-- the entries in memory and the file, if there is one
pub record Sealed : Type 0 where
  pub entries : Secrets
  pub file : Option Bytes
  pub drawn : ℕ
  pub written : ℕ

abbrev pub persist_with : Option Bytes → Bool → Exec Sealed KeystoreError (Unit {0})
persist_with none done s = (err not_written, s)
persist_with (some raw) false s = (err not_written, record s { written = s.written + 1 })
persist_with (some raw) true s = (ok tt, record s { file = some raw; written = s.written + 1 })

module _ (Q : Sealing) (provider : Option Bytes) where
  abbrev pub checked_key : Option Bytes → Option Bytes
  checked_key none = none
  checked_key (some key) = if Q.valid_key key then some key else none

  -- `cipher`, by the key that it uses
  unfoldable pub cipher : Option Bytes
  cipher = checked_key provider

  abbrev pub opened : Bytes → Option Bytes → Option Bytes → Result KeystoreError Bytes
  opened alias none key = err corrupt_entry
  opened alias (some sealed) none = err no_master_key
  opened alias (some sealed) (some key) =
      if ltb (length sealed) Q.nonce_size
      then err corrupt_entry
      else elim (Q.open_sealed key (take Q.nonce_size sealed) (drop Q.nonce_size sealed) alias) [
        | none ↦ err corrupt_entry
        | some secret ↦ ok secret
      ]

  abbrev pub fetch_entry : Bytes → Result KeystoreError Bytes → Result KeystoreError Bytes
  fetch_entry alias (err e) = err e
  fetch_entry alias (ok encoded) = opened alias (Q.decode encoded) cipher

  unfoldable pub sealed_fetch : Bytes → Sealed → Result KeystoreError Bytes
  unfolding cipher
  sealed_fetch alias s = fetch_entry alias (find_secret alias s.entries)

  module _ (R : Machine Q) where
    unfoldable pub persist_locked : Exec Sealed KeystoreError (Unit {0})
    persist_locked s = persist_with (Q.marshal s.entries) (R.writes s.written) s

    abbrev pub store_sealed :
        Bytes → Bytes → Option Bytes → Option Bytes → Exec Sealed KeystoreError (Unit {0})
    store_sealed alias secret none drawn s = (err no_master_key, s)
    store_sealed alias secret (some key) none s = (err no_nonce, record s { drawn = s.drawn + 1 })
    store_sealed alias secret (some key) (some drawn) s = persist_locked (record s {
      entries =
          (alias, Q.encode (drawn ++ Q.seal key drawn secret alias)) ∷ drop_secret alias s.entries;
      drawn = s.drawn + 1;
    })

    unfoldable pub sealed_store : Bytes → Bytes → Exec Sealed KeystoreError (Unit {0})
    unfolding cipher persist_locked
    sealed_store alias secret s = store_sealed alias secret cipher (R.nonce s.drawn) s

    abbrev pub delete_found :
        Bytes → Result KeystoreError Bytes → Exec Sealed KeystoreError (Unit {0})
    delete_found alias (err _) s = (ok tt, s)
    delete_found alias (ok _) s =
        persist_locked (record s { entries = drop_secret alias s.entries })

    unfoldable pub sealed_delete : Bytes → Exec Sealed KeystoreError (Unit {0})
    unfolding persist_locked
    sealed_delete alias s = delete_found alias (find_secret alias s.entries) s

module _ (Q : Sealing) where
  abbrev pub parsed : Option Secrets → Sealed → Result KeystoreError Sealed
  parsed none s = err unreadable_store
  parsed (some m) s = ok (record s { entries = m })

  abbrev pub read_file : Option Bytes → Sealed → Result KeystoreError Sealed
  read_file none s = ok (record s { entries = [] })
  read_file (some raw) s = parsed (Q.unmarshal raw) s

  -- NewSealedKeystoreWithProvider at the next start, on the file that is there
  unfoldable pub reopen : Sealed → Result KeystoreError Sealed
  reopen s = read_file s.file s
