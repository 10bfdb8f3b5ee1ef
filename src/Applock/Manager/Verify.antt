-- ===== src/Applock/Manager/Verify.antt =====
-- What `Set` and `Verify` of applock.go decide.
use vayu_mail_mobile.Base.{
  zero_of, ℕ, ◌≡◌, ◌<◌, refl, Bool, true, false, Option, none, some, [], ◌∷◌, pos, add64, Bytes,
  eq_bytes, eq_bytes_sound, eq_bytes_refl, length, Result, ok, err, ◌>>=◌, continue, wrap, pure,
  ◌≢◌, ap, ◌∙◌, ltb, if◌then◌else◌, arith, Bool-cases, inl, inr,
}
use vayu_mail_mobile.Crypto.Keystore.{Keystore, KeystoreError}
use vayu_mail_mobile.Store.Settings.{applock_locked_until, get_setting}
use vayu_mail_mobile.Applock.Pin.{valid_pin}
use vayu_mail_mobile.Applock.Manager.{
  Env, Error, locked_out, derive_failed, no_verifier, verifier_corrupt, lift, delay_of, Kdf,
  Verifier, verifier_alias, pbkdf2_iterations, key_len, well_formed, retry_delay, record_failure,
  refuse, admit, set, compare_pin, verify,
}
use vayu_mail_mobile.Applock.Manager.Lockout.{
  IsHealthy, rows, with_rows, cleared, failed, failures_of, window_of, retry_delay_lem,
  clear_lockout_lem, record_failure_lem, window_of-cleared,
}

module _ {S : Type 0} (K : Keystore S) (C : Kdf) where
  -- the keystore holds the verifier `v`
  abbrev pub Holds : Verifier → Env S → Type 0
  Holds v s =
      (blob : Bytes) × (K.fetch verifier_alias s.secrets ≡ ok blob) × (C.unmarshal blob ≡ some v)

  -- the key that `pin` derives under the parameters of `v`
  abbrev pub derived : Bytes → Verifier → Option Bytes
  derived pin v = C.pbkdf2 pin v.salt v.iterations (length v.hash)

  -- While the lockout window is open an attempt is refused, right PIN or not, and neither the
  -- keystore nor any setting changes.
  pub verify_locked :
      (pin : Bytes) (now : ℕ) (s : Env S)
      → IsHealthy s
      → 0 < window_of (rows s) now
      → verify K C pin now s ≡ (err locked_out, s)
  unfolding verify
  verify_locked pin now s h w = rw (retry_delay_lem now s h) (ground arith)

  -- With the window closed and a well-formed verifier in the keystore, the answer is whether the
  -- derived key is the stored one. A right PIN clears the bookkeeping, a wrong one counts as one more
  -- failure, and nothing else changes.
  pub verify_decides :
      (pin : Bytes) (now : ℕ) (s : Env S) (v : Verifier) (key : Bytes)
      → IsHealthy s
      → window_of (rows s) now ≡ 0
      → Holds v s
      → well_formed v ≡ true
      → derived pin v ≡ some key
      → verify K C pin now s ≡ (
          if eq_bytes key v.hash
          then (ok true, with_rows s (cleared (rows s)))
          else (ok false, with_rows s (failed (rows s) (add64 (failures_of (rows s)) 1) now)))
  unfolding verify compare_pin admit refuse
  verify_decides pin now s v key h w (blob, found, decoded) wf d = rw (retry_delay_lem now s h) (
      rw (w, found, decoded, wf, d)
        (elim (Bool-cases (eq_bytes key v.hash)) [
          | inl same ↦ rw same (rw (clear_lockout_lem s h))
          | inr other ↦ rw other (rw (record_failure_lem now s h))
        ]))

  continue-false :
      (r : Result Error (Unit {0})) (s : Env S) → (continue r s (λ _. pure false)).0 ≢ ok true
  continue-false (ok a) s h = cc
  continue-false (err e) s h = cc

  compare_key :
      (v : Verifier) (now : ℕ) (s : Env S) (o : Option Bytes)
      → ((lift derive_failed o >>= λ k. if eq_bytes k v.hash then admit else refuse now) s).0
        ≡ ok true
      → o ≡ some v.hash
  unfolding refuse
  compare_key v now s none r = cc
  compare_key v now s (some k) r = elim (Bool-cases (eq_bytes k v.hash)) [
    | inl same ↦ ap some (eq_bytes_sound k v.hash same)
    | inr other ↦
        absurd (continue-false (record_failure now s).0 (record_failure now s).1 (rw other at r))
  ]

  compare_sound :
      (pin : Bytes) (v : Verifier) (now : ℕ) (s : Env S)
      → (compare_pin K C pin v now s).0 ≡ ok true
      → (well_formed v ≡ true) × (derived pin v ≡ some v.hash)
  unfolding compare_pin
  compare_sound pin v now s h = elim (Bool-cases (well_formed v)) [
    | inl wf ↦ (wf, compare_key v now s (derived pin v) (rw wf at h))
    | inr bad ↦ cc (rw bad at h)
  ]

  -- what is left of `Verify` once the window is known to be closed
  abbrev decode : Bytes → Option Verifier → ℕ → Env S → Result Error Bool × Env S
  decode pin o now = lift verifier_corrupt o >>= λ v. compare_pin K C pin v now

  decode_sound :
      (pin : Bytes) (o : Option Verifier) (now : ℕ) (s : Env S)
      → (decode pin o now s).0 ≡ ok true
      → (v : Verifier) × (o ≡ some v) × (well_formed v ≡ true) × (derived pin v ≡ some v.hash)
  decode_sound pin none now s h = cc
  decode_sound pin (some v) now s h = let c = compare_sound pin v now s h in (v, refl, c.0, c.1)

  open_sound :
      (pin : Bytes) (r : Result KeystoreError Bytes) (now : ℕ) (s : Env S)
      → (continue (wrap (λ _. no_verifier) r) s (λ blob. decode pin (C.unmarshal blob) now)).0
        ≡ ok true
      → (blob : Bytes) × (r ≡ ok blob) × ((decode pin (C.unmarshal blob) now s).0 ≡ ok true)
  open_sound pin (ok blob) now s h = (blob, refl, h)
  open_sound pin (err e) now s h = cc

  -- Whatever the database does, an attempt that succeeds read no open lockout window, found a
  -- well-formed verifier in the keystore, and derived exactly the stored key.
  pub verify_sound :
      (pin : Bytes) (now : ℕ) (s : Env S)
      → (verify K C pin now s).0 ≡ ok true
      → ((retry_delay now s).0 ≡ ok 0)
        × ((v : Verifier) × Holds v s × (well_formed v ≡ true) × (derived pin v ≡ some v.hash))
  unfolding verify retry_delay
  verify_sound pin now s h =
      let d = delay_of (get_setting applock_locked_until s.db).0 now in
      elim (Bool-cases (ltb 0 d)) [
        | inl wait ↦ cc (rw wait at h)
        | inr go ↦
            let s' = record s { db = (get_setting applock_locked_until s.db).1 } in
            let (blob, found, rest) =
              open_sound pin (K.fetch verifier_alias s.secrets) now s' (rw go at h) in
            let (v, decoded, wf, key) = decode_sound pin (C.unmarshal blob) now s' rest in
            (ap ok (zero_of d go), (v, (blob, found, decoded), wf, key))
      ]

  -- the verifier that `Set` writes
  abbrev pub fresh : Bytes → Bytes → Verifier
  fresh salt key = record {
    version = pos 1;
    salt = salt;
    iterations = pos pbkdf2_iterations;
    hash = key;
  }

  well_formed-fresh :
      (salt key : Bytes) → 0 < length salt → 0 < length key → well_formed (fresh salt key) ≡ true
  well_formed-fresh [] key h l = absurd (omega arith)
  well_formed-fresh (c ∷ salt) [] h l = absurd (omega arith)
  well_formed-fresh (c ∷ salt) (b ∷ key) h l = refl

  set_lem :
      (pin salt key blob : Bytes) (s : Env S)
      → IsHealthy s
      → valid_pin pin ≡ true
      → C.pbkdf2 pin salt (pos pbkdf2_iterations) key_len ≡ some key
      → C.marshal (fresh salt key) ≡ some blob
      → (K.store verifier_alias blob s.secrets).0 ≡ ok tt
      → set K C pin (some salt) s ≡ (
        ok tt,
        with_rows
            (record s { secrets = (K.store verifier_alias blob s.secrets).1 })
            (cleared (rows s)),
      )
  unfolding set
  set_lem pin salt key blob s h vp dk mar st =
      rw (vp, dk, mar, st)
        (clear_lockout_lem (record s { secrets = (K.store verifier_alias blob s.secrets).1 }) h)

  -- On a healthy database, when `Set` has stored a verifier for a valid PIN and a nonempty salt, the
  -- next `Verify`, with any PIN, is not throttled and answers yes exactly if that PIN derives the
  -- same key from the salt.
  pub verify-set :
      (pin salt key pin' key' blob : Bytes) (now : ℕ) (s : Env S)
      → IsHealthy s
      → valid_pin pin ≡ true
      → 0 < length salt
      → C.pbkdf2 pin salt (pos pbkdf2_iterations) key_len ≡ some key
      → C.pbkdf2 pin' salt (pos pbkdf2_iterations) key_len ≡ some key'
      → C.marshal (fresh salt key) ≡ some blob
      → (K.store verifier_alias blob s.secrets).0 ≡ ok tt
      → ((set K C pin (some salt) s).0 ≡ ok tt)
        × ((verify K C pin' now (set K C pin (some salt) s).1).0 ≡ ok (eq_bytes key' key))
  verify-set pin salt key pin' key' blob now s h vp sl dk dk' mar st =
      let n = C.length-pbkdf2 pin salt (pos pbkdf2_iterations) key_len key dk in
      let s' =
        with_rows (record s { secrets = (K.store verifier_alias blob s.secrets).1 })
          (cleared (rows s)) in
      let found =
        K.fetch-store verifier_alias verifier_alias blob s.secrets st
        ∙ ap (λ b. if b then ok blob else K.fetch verifier_alias s.secrets)
            (eq_bytes_refl verifier_alias) in
      let v = fresh salt key in
      let decides =
        verify_decides pin' now s' v key' h (window_of-cleared (rows s) now)
          (blob, found, C.unmarshal-marshal v blob mar)
          (well_formed-fresh salt key sl (omega (arith, n)))
          (ap (C.pbkdf2 pin' salt (pos pbkdf2_iterations)) n ∙ dk') in
      rw (set_lem pin salt key blob s h vp dk mar st) (
        refl,
        rw decides
            (elim (Bool-cases (eq_bytes key' key)) [ inl same ↦ rw same | inr other ↦ rw other ]),
      )
