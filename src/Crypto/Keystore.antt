-- ===== src/Crypto/Keystore.antt =====
-- internal/crypto/keystore.go: the `Keystore` interface with what its comments promise, the memory
-- implementation and the platform implementation, which delegates to a bridge that may be missing.
use vayu_mail_mobile.Base.{
  ◌≡◌, Option, none, some, List, [], ◌∷◌, Exec, Result, ok, err, if◌then◌else◌, arith, Bytes,
  eq_bytes, eq_bytes_iff,
}

pub data KeystoreError : Type 0 where
  key_not_found no_platform_keystore bridge_error : KeystoreError
  no_master_key no_nonce corrupt_entry not_written unreadable_store : KeystoreError

-- `S` is the state behind the interface.
pub record Keystore (S : Type 0) : Type 0 where
  pub store : Bytes → Bytes → Exec S KeystoreError (Unit {0})
  pub fetch : Bytes → S → Result KeystoreError Bytes
  pub delete : Bytes → Exec S KeystoreError (Unit {0})
  -- a store that succeeds replaces the secret under its alias, and no other
  pub fetch-store :
      (a b v : Bytes) (s : S)
      → (store a v s).0 ≡ ok tt
      → fetch b (store a v s).1 ≡ (if eq_bytes a b then ok v else fetch b s)
  -- a delete that succeeds removes the secret under its alias, and no other
  pub fetch-delete :
      (a b : Bytes) (s : S)
      → (delete a s).0 ≡ ok tt
      → fetch b (delete a s).1 ≡ (if eq_bytes a b then err key_not_found else fetch b s)

abbrev pub Secrets : Type 0
Secrets = List (Bytes × Bytes)

-- MemoryKeystore
unfoldable pub find_secret : Bytes → Secrets → Result KeystoreError Bytes
find_secret a [] = err key_not_found
find_secret a ((b, v) ∷ m) = if eq_bytes b a then ok v else find_secret a m

unfoldable pub drop_secret : Bytes → Secrets → Secrets
drop_secret a [] = []
drop_secret a ((b, v) ∷ m) =
    let rest = drop_secret a m in if eq_bytes b a then rest else (b, v) ∷ rest

unfoldable pub memory_store : Bytes → Bytes → Exec Secrets KeystoreError (Unit {0})
memory_store a v m = (ok tt, (a, v) ∷ drop_secret a m)

unfoldable pub memory_fetch : Bytes → Secrets → Result KeystoreError Bytes
memory_fetch a m = find_secret a m

unfoldable pub memory_delete : Bytes → Exec Secrets KeystoreError (Unit {0})
memory_delete a m = (ok tt, drop_secret a m)

pub find-drop_secret :
    (a b : Bytes) (m : Secrets)
    → find_secret b (drop_secret a m)
      ≡ (if eq_bytes a b then err key_not_found else find_secret b m)
unfolding find_secret drop_secret
find-drop_secret a b [] = ground arith
find-drop_secret a b ((c, v) ∷ m) =
    ground (arith, find-drop_secret a b m, eq_bytes_iff c a, eq_bytes_iff c b, eq_bytes_iff a b)

pub find_secret-put :
    (a b v : Bytes) (m : Secrets)
    → find_secret b ((a, v) ∷ drop_secret a m) ≡ (if eq_bytes a b then ok v else find_secret b m)
unfolding find_secret
find_secret-put a b v m = ground (arith, find-drop_secret a b m)

pub find_secret-err :
    (a : Bytes) (m : Secrets) (e : KeystoreError) → find_secret a m ≡ err e → e ≡ key_not_found
unfolding find_secret
find_secret-err a [] e h = cc
find_secret-err a ((b, v) ∷ m) e h = ground (arith, find_secret-err a m e)

pub memory_fetch-store :
    (a b v : Bytes) (m : Secrets)
    → memory_fetch b (memory_store a v m).1 ≡ (if eq_bytes a b then ok v else memory_fetch b m)
unfolding memory_fetch memory_store
memory_fetch-store a b v m = find_secret-put a b v m

pub memory_fetch-delete :
    (a b : Bytes) (m : Secrets)
    → memory_fetch b (memory_delete a m).1
      ≡ (if eq_bytes a b then err key_not_found else memory_fetch b m)
unfolding memory_fetch memory_delete
memory_fetch-delete a b m = find-drop_secret a b m

abbrev pub memory_keystore : Keystore Secrets
memory_keystore = record {
  store = memory_store;
  fetch = memory_fetch;
  delete = memory_delete;
  fetch-store = λ a b v m _. memory_fetch-store a b v m;
  fetch-delete = λ a b m _. memory_fetch-delete a b m;
}

-- PlatformKeystore, over the bridge that was registered, if any
module _ {S : Type 0} where
  unfoldable pub platform_store :
      Option (Keystore S) → Bytes → Bytes → Exec S KeystoreError (Unit {0})
  platform_store none a v s = (err no_platform_keystore, s)
  platform_store (some b) a v s = b.store a v s

  unfoldable pub platform_fetch : Option (Keystore S) → Bytes → S → Result KeystoreError Bytes
  platform_fetch none a s = err no_platform_keystore
  platform_fetch (some b) a s = b.fetch a s

  unfoldable pub platform_delete : Option (Keystore S) → Bytes → Exec S KeystoreError (Unit {0})
  platform_delete none a s = (err no_platform_keystore, s)
  platform_delete (some b) a s = b.delete a s

  pub platform_fetch-store :
      (p : Option (Keystore S)) (a b v : Bytes) (s : S)
      → (platform_store p a v s).0 ≡ ok tt
      → platform_fetch p b (platform_store p a v s).1
        ≡ (if eq_bytes a b then ok v else platform_fetch p b s)
  unfolding platform_store platform_fetch
  platform_fetch-store none a b v s h = cc
  platform_fetch-store (some k) a b v s h = k.fetch-store a b v s h

  pub platform_fetch-delete :
      (p : Option (Keystore S)) (a b : Bytes) (s : S)
      → (platform_delete p a s).0 ≡ ok tt
      → platform_fetch p b (platform_delete p a s).1
        ≡ (if eq_bytes a b then err key_not_found else platform_fetch p b s)
  unfolding platform_delete platform_fetch
  platform_fetch-delete none a b s h = cc
  platform_fetch-delete (some k) a b s h = k.fetch-delete a b s h

  abbrev pub platform_keystore : Option (Keystore S) → Keystore S
  platform_keystore p = record {
    store = platform_store p;
    fetch = platform_fetch p;
    delete = platform_delete p;
    fetch-store = platform_fetch-store p;
    fetch-delete = platform_fetch-delete p;
  }
