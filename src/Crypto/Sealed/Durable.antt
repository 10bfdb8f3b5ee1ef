-- ===== src/Crypto/Sealed/Durable.antt =====
-- What a restart finds in the file of internal/crypto/sealed.go.
use vayu_mail_mobile.Base.{
  ◌≡◌, ◌+◌, refl, ap, ◌∙◌, Bool, true, false, Option, none, some, [], ◌∷◌, ◌++◌, Bytes, eq_bytes,
  eq_bytes_refl, Result, ok, err, if◌then◌else◌,
}
use vayu_mail_mobile.Crypto.Keystore.{
  KeystoreError, key_not_found, not_written, Secrets, find_secret, drop_secret, find-drop_secret,
}
use vayu_mail_mobile.Crypto.Sealed.{
  Sealing, Machine, Sealed, persist_with, cipher, fetch_entry, sealed_fetch, persist_locked,
  store_sealed, sealed_store, delete_found, sealed_delete, parsed, read_file, reopen,
}
use vayu_mail_mobile.Crypto.Sealed.Laws.{sealed_fetch-store}

module _ (Q : Sealing) where
  -- a restart of `s` succeeds and finds the entries `m`
  abbrev pub Finds : Secrets → Sealed → Type 0
  Finds m s =
      (t : Sealed) × (reopen Q s ≡ ok t) × ((b : Bytes) → find_secret b t.entries ≡ find_secret b m)

  persist-Finds :
      (o : Option Bytes) (d : Bool) (s : Sealed)
      → Q.marshal s.entries ≡ o
      → (persist_with o d s).0 ≡ ok tt
      → Finds (persist_with o d s).1.entries (persist_with o d s).1
  unfolding reopen
  persist-Finds none d s m h = cc
  persist-Finds (some raw) false s m h = cc
  persist-Finds (some raw) true s m h =
      let (n, decoded, same) = Q.unmarshal-marshal s.entries raw m in
      (
        record s { entries = n; file = some raw; written = s.written + 1 },
        ap (λ o. parsed Q o (record s { file = some raw; written = s.written + 1 })) decoded,
        same,
      )

module _ (Q : Sealing) (provider : Option Bytes) (R : Machine Q) where
  stored-Finds :
      (a v : Bytes) (k n : Option Bytes) (s : Sealed)
      → (store_sealed Q provider R a v k n s).0 ≡ ok tt
      → Finds Q
          (store_sealed Q provider R a v k n s).1.entries
          (store_sealed Q provider R a v k n s).1
  unfolding persist_locked
  stored-Finds a v none n s h = cc
  stored-Finds a v (some key) none s h = cc
  stored-Finds a v (some key) (some nonce) s h =
      let s' = record s {
        entries = (a, Q.encode (nonce ++ Q.seal key nonce v a)) ∷ drop_secret a s.entries;
        drawn = s.drawn + 1;
      } in
      persist-Finds Q (Q.marshal s'.entries) (R.writes s'.written) s' refl h

  -- After a `Store` that reports success, a restart succeeds and finds the new secret under its alias,
  -- and under every other alias what was there before.
  pub store_survives :
      (a v : Bytes) (s : Sealed)
      → (sealed_store Q provider R a v s).0 ≡ ok tt
      → (t : Sealed) × (reopen Q (sealed_store Q provider R a v s).1 ≡ ok t)
        × ((b : Bytes)
            → sealed_fetch Q provider b t
              ≡ (if eq_bytes a b then ok v else sealed_fetch Q provider b s))
  unfolding sealed_store sealed_fetch
  store_survives a v s h =
      let (t, reopened, same) = stored-Finds a v (cipher Q provider) (R.nonce s.drawn) s h in
      (
        t,
        reopened,
        λ b. ap (fetch_entry Q provider b) (same b) ∙ sealed_fetch-store Q provider R a b v s h,
      )

  failed_persist :
      (o : Option Bytes) (d : Bool) (s : Sealed)
      → d ≡ false
      → ((persist_with o d s).0 ≡ err not_written)
        × ((persist_with o d s).1.file ≡ s.file)
        × ((persist_with o d s).1.entries ≡ s.entries)
  failed_persist none d s h = (refl, refl, refl)
  failed_persist (some raw) false s h = (refl, refl, refl)
  failed_persist (some raw) true s h = cc

  parsed_same :
      (o : Option Secrets) (s s' t : Sealed)
      → parsed Q o s ≡ ok t
      → (u : Sealed) × (parsed Q o s' ≡ ok u) × (u.entries ≡ t.entries)
  parsed_same none s s' t h = cc
  parsed_same (some m) s s' t h =
      let e : record s { entries = m } ≡ t = cc in
      (record s' { entries = m }, refl, ap (λ x. x.entries) e)

  same_file :
      (f : Option Bytes) (s s' t : Sealed)
      → read_file Q f s ≡ ok t
      → (u : Sealed) × (read_file Q f s' ≡ ok u) × (u.entries ≡ t.entries)
  same_file none s s' t h =
      let e : record s { entries = [] } ≡ t = cc in
      (record s' { entries = [] }, refl, ap (λ x. x.entries) e)
  same_file (some raw) s s' t h = parsed_same (Q.unmarshal raw) s s' t h

  held :
      (b : Bytes) (r : Result KeystoreError Bytes) (v : Bytes)
      → fetch_entry Q provider b r ≡ ok v
      → (e : Bytes) × (r ≡ ok e)
  held b (ok e) v h = (e, refl)
  held b (err x) v h = cc

  -- Suppose that the file holds a secret, and that it cannot be written when the secret is deleted. Then
  -- `Delete` reports an error, but a second `Delete` reports success, and after a restart the secret is
  -- there again.
  pub failed_delete_returns :
      (a v : Bytes) (s t : Sealed)
      → sealed_fetch Q provider a s ≡ ok v
      → reopen Q s ≡ ok t
      → sealed_fetch Q provider a t ≡ ok v
      → R.writes s.written ≡ false
      → let first = sealed_delete Q provider R a s in
        let second = sealed_delete Q provider R a first.1 in
        (first.0 ≡ err not_written)
        × (second.0 ≡ ok tt)
        × ((u : Sealed) × (reopen Q second.1 ≡ ok u) × (sealed_fetch Q provider a u ≡ ok v))
  unfolding sealed_delete sealed_fetch reopen persist_locked
  failed_delete_returns a v s t f r g w =
      let (e, found) = held a (find_secret a s.entries) v f in
      let s' = record s { entries = drop_secret a s.entries } in
      let p = persist_locked Q provider R s' in
      let (refused, file, kept) =
        failed_persist (Q.marshal s'.entries) (R.writes s'.written) s' w in
      let first : sealed_delete Q provider R a s ≡ p =
        ap (λ r. delete_found Q provider R a r s) found in
      let gone : find_secret a p.1.entries ≡ err key_not_found =
        ap (find_secret a) kept
        ∙ find-drop_secret a a s.entries
        ∙ ap (λ b. if b then err key_not_found else find_secret a s.entries) (eq_bytes_refl a) in
      let second : sealed_delete Q provider R a p.1 ≡ (ok tt, p.1) =
        ap (λ r. delete_found Q provider R a r p.1) gone in
      let (u, opened, same) = same_file s.file s p.1 t r in
      rw (first, second)
        (
          refused,
          refl,
          (
            u,
            ap (λ f. read_file Q f p.1) file ∙ opened,
            ap (λ m. fetch_entry Q provider a (find_secret a m)) same ∙ g,
          ),
        )
