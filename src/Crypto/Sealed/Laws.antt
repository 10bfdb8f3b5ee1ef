-- ===== src/Crypto/Sealed/Laws.antt =====
-- The sealed keystore implements the keystore interface.
use vayu_mail_mobile.Base.{
  ◌≡◌, ◌+◌, refl, ap, ◌∙◌, Bool, true, false, Option, none, some, ◌∷◌, ◌++◌, Bytes, eq_bytes,
  eq_bytes_sound, length, length-append, take, drop, take-append_length, drop-append_length, Result,
  ok, err, ltb, if◌then◌else◌, Bool-cases, inl, inr, arith,
}
use vayu_mail_mobile.Crypto.Keystore.{
  Keystore, KeystoreError, key_not_found, find_secret, drop_secret, find_secret-put,
  find-drop_secret, find_secret-err,
}
use vayu_mail_mobile.Crypto.Sealed.{
  Sealing, Machine, Sealed, persist_with, checked_key, cipher, opened, fetch_entry, sealed_fetch,
  persist_locked, store_sealed, sealed_store, delete_found, sealed_delete,
}

pub persist_with-entries :
    (o : Option Bytes) (d : Bool) (s : Sealed) → (persist_with o d s).1.entries ≡ s.entries
persist_with-entries none d s = refl
persist_with-entries (some raw) false s = refl
persist_with-entries (some raw) true s = refl

pub cut_nonce :
    (n t : Bytes)
    → (ltb (length (n ++ t)) (length n) ≡ false)
      × (take (length n) (n ++ t) ≡ n)
      × (drop (length n) (n ++ t) ≡ t)
cut_nonce n t = (ground (arith, length-append n t), take-append_length n t, drop-append_length n t)

module _ (Q : Sealing) (provider : Option Bytes) where
  checked_valid :
      (p : Option Bytes) (key : Bytes)
      → checked_key Q provider p ≡ some key
      → Q.valid_key key ≡ true
  checked_valid none key h = cc
  checked_valid (some k) key h = elim (Bool-cases (Q.valid_key k)) [
    | inl fits ↦ let h' : some k ≡ some key = rw fits at h in let e : k ≡ key = cc in rw (← e) fits
    | inr bad ↦ cc (rw bad at h)
  ]

  pub cipher_valid : (key : Bytes) → cipher Q provider ≡ some key → Q.valid_key key ≡ true
  unfolding cipher
  cipher_valid key h = checked_valid provider key h

  opened-sealed :
      (alias secret key nonce : Bytes)
      → Q.valid_key key ≡ true
      → length nonce ≡ Q.nonce_size
      → opened Q provider alias
          (Q.decode (Q.encode (nonce ++ Q.seal key nonce secret alias)))
          (some key)
        ≡ ok secret
  opened-sealed alias secret key nonce v l =
      let sealed = Q.seal key nonce secret alias in
      let (long, front, back) = cut_nonce nonce sealed in
      rw
        (
          Q.decode-encode (nonce ++ sealed),
          ← l,
          long,
          front,
          back,
          Q.open-seal key nonce secret alias v,
        )
        refl

  module _ (R : Machine Q) where
    put_fetch :
        (a b v key : Bytes) (nonce : Bytes) (s : Sealed)
        → cipher Q provider ≡ some key
        → length nonce ≡ Q.nonce_size
        → fetch_entry Q provider b (
            find_secret b ((a, Q.encode (nonce ++ Q.seal key nonce v a)) ∷ drop_secret a s.entries))
          ≡ (if eq_bytes a b then ok v else sealed_fetch Q provider b s)
    unfolding sealed_fetch
    put_fetch a b v key nonce s c l =
        let enc = Q.encode (nonce ++ Q.seal key nonce v a) in
        rw (find_secret-put a b enc s.entries) (elim (Bool-cases (eq_bytes a b)) [
          | inl same ↦
              rw (same, ← eq_bytes_sound a b same, c)
                (opened-sealed a v key nonce (cipher_valid key c) l)
          | inr other ↦ rw other
        ])

    stored_fetch :
        (a b v : Bytes) (k n : Option Bytes) (s : Sealed)
        → cipher Q provider ≡ k
        → R.nonce s.drawn ≡ n
        → (store_sealed Q provider R a v k n s).0 ≡ ok tt
        → sealed_fetch Q provider b (store_sealed Q provider R a v k n s).1
          ≡ (if eq_bytes a b then ok v else sealed_fetch Q provider b s)
    unfolding sealed_fetch persist_locked
    stored_fetch a b v none n s hk hn h = cc
    stored_fetch a b v (some key) none s hk hn h = cc
    stored_fetch a b v (some key) (some nonce) s hk hn h =
        let s' = record s {
          entries = (a, Q.encode (nonce ++ Q.seal key nonce v a)) ∷ drop_secret a s.entries;
          drawn = s.drawn + 1;
        } in
        ap (λ m. fetch_entry Q provider b (find_secret b m))
          (persist_with-entries (Q.marshal s'.entries) (R.writes s'.written) s')
        ∙ put_fetch a b v key nonce s hk (R.length-nonce s.drawn nonce hn)

    pub sealed_fetch-store :
        (a b v : Bytes) (s : Sealed)
        → (sealed_store Q provider R a v s).0 ≡ ok tt
        → sealed_fetch Q provider b (sealed_store Q provider R a v s).1
          ≡ (if eq_bytes a b then ok v else sealed_fetch Q provider b s)
    unfolding sealed_store
    sealed_fetch-store a b v s h =
        stored_fetch a b v (cipher Q provider) (R.nonce s.drawn) s refl refl h

    deleted_fetch :
        (a b : Bytes) (r : Result KeystoreError Bytes) (s : Sealed)
        → find_secret a s.entries ≡ r
        → (delete_found Q provider R a r s).0 ≡ ok tt
        → sealed_fetch Q provider b (delete_found Q provider R a r s).1
          ≡ (if eq_bytes a b then err key_not_found else sealed_fetch Q provider b s)
    unfolding sealed_fetch persist_locked
    deleted_fetch a b (err e) s hr h = elim (Bool-cases (eq_bytes a b)) [
      | inl same ↦ rw (same, ← eq_bytes_sound a b same, hr, find_secret-err a s.entries e hr)
      | inr other ↦ rw other
    ]
    deleted_fetch a b (ok v) s hr h =
        let s' = record s { entries = drop_secret a s.entries } in
        ap (λ m. fetch_entry Q provider b (find_secret b m))
          (persist_with-entries (Q.marshal s'.entries) (R.writes s'.written) s')
        ∙ rw (find-drop_secret a b s.entries)
            (elim (Bool-cases (eq_bytes a b)) [ inl same ↦ rw same | inr other ↦ rw other ])

    pub sealed_fetch-delete :
        (a b : Bytes) (s : Sealed)
        → (sealed_delete Q provider R a s).0 ≡ ok tt
        → sealed_fetch Q provider b (sealed_delete Q provider R a s).1
          ≡ (if eq_bytes a b then err key_not_found else sealed_fetch Q provider b s)
    unfolding sealed_delete
    sealed_fetch-delete a b s h = deleted_fetch a b (find_secret a s.entries) s refl h

    abbrev pub sealed_keystore : Keystore Sealed
    sealed_keystore = record {
      store = sealed_store Q provider R;
      fetch = sealed_fetch Q provider;
      delete = sealed_delete Q provider R;
      fetch-store = sealed_fetch-store;
      fetch-delete = sealed_fetch-delete;
    }
