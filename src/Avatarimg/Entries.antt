-- ===== src/Avatarimg/Entries.antt =====
-- internal/avatarimg/cache.go: what a write to the entry of one address does to the others.
use vayu_mail_mobile.Base.{
  ◌≡◌, ◌≢◌, refl, sym, ◌∙◌, ap, Bool, true, false, List, [], ◌∷◌, keep, Bytes, eq_bytes,
  eq_bytes_sound, eq_bytes_refl, Bool-cases, inl, inr, All,
}
use vayu_mail_mobile.Avatarimg.{
  state_loading, Entry, is_in, entry_of, put_entry, forget_miss, forget_misses,
}

-- no key stands there twice
abbrev pub Distinct : List Bytes → Type 0
Distinct [] = Unit
Distinct (k ∷ ks) = (is_in k ks ≡ false) × Distinct ks

keep_others :
    (p : Bytes → Bool) (k : Bytes) (ks : List Bytes)
    → is_in k ks ≡ false
    → is_in k (keep p ks) ≡ false
unfolding is_in
keep_others p k [] h = refl
keep_others p k (j ∷ ks) h = elim (Bool-cases (eq_bytes j k)) [
  | inl same ↦ cc (rw same at h)
  | inr other ↦ elim (Bool-cases (p j)) [
    | inl kept ↦ rw kept (rw other (keep_others p k ks (rw other at h)))
    | inr dropped ↦ rw dropped (keep_others p k ks (rw other at h))
  ]
]

pub keep-Distinct : (p : Bytes → Bool) (ks : List Bytes) → Distinct ks → Distinct (keep p ks)
keep-Distinct p [] h = tt
keep-Distinct p (k ∷ ks) (n, h) = elim (Bool-cases (p k)) [
  | inl kept ↦ rw kept (keep_others p k ks n, keep-Distinct p ks h)
  | inr dropped ↦ rw dropped (keep-Distinct p ks h)
]

module _ {I : Type 0} where
  abbrev pub Loading : List (Bytes × Entry I) → Bytes → Type 0
  Loading rows k = (entry_of k rows).state ≡ state_loading

  -- the entry of a key stays the same under a write to another, or to itself if the state does
  pub put-Loading :
      (k key : Bytes) (e : Entry I) (rows : List (Bytes × Entry I))
      → (k ≡ key → e.state ≡ state_loading)
      → Loading rows k
      → Loading (put_entry key e rows) k
  unfolding put_entry entry_of
  put-Loading k key e [] own h = cc h
  put-Loading k key e ((j, f) ∷ rows) own h = elim (Bool-cases (eq_bytes j key)) [
    | inl at_key ↦ elim (Bool-cases (eq_bytes j k)) [
      | inl mine ↦
          rw at_key (rw mine (own (sym (eq_bytes_sound j k mine) ∙ eq_bytes_sound j key at_key)))
      | inr other ↦ rw at_key (rw other (rw other at h))
    ]
    | inr elsewhere ↦ elim (Bool-cases (eq_bytes j k)) [
      | inl mine ↦ rw elsewhere (rw mine (rw mine at h))
      | inr other ↦ rw elsewhere (rw other (put-Loading k key e rows own (rw other at h)))
    ]
  ]

  pub entry_of-put_entry :
      (key : Bytes) (e : Entry I) (rows : List (Bytes × Entry I))
      → entry_of key (put_entry key e rows) ≡ e
  unfolding put_entry entry_of
  entry_of-put_entry key e [] = rw (eq_bytes_refl key) refl
  entry_of-put_entry key e ((j, f) ∷ rows) = elim (Bool-cases (eq_bytes j key)) [
    | inl same ↦ rw same (rw same refl)
    | inr other ↦ rw other (rw other (entry_of-put_entry key e rows))
  ]

  pub forget_misses-Loading :
      (k : Bytes) (rows : List (Bytes × Entry I)) → Loading rows k → Loading (forget_misses rows) k
  unfolding forget_misses entry_of
  forget_misses-Loading k [] h = h
  forget_misses-Loading k ((j, e) ∷ rows) h = elim (Bool-cases (eq_bytes j k)) [
    | inl same ↦
        let loading : e.state ≡ state_loading = rw same at h in rw same (ap forget_miss loading)
    | inr other ↦ rw other (forget_misses-Loading k rows (rw other at h))
  ]

  -- a key that is fetched has the state of loading
  pub idle_key :
      (key : Bytes) (rows : List (Bytes × Entry I)) (ks : List Bytes)
      → All (Loading rows) ks
      → (entry_of key rows).state ≢ state_loading
      → is_in key ks ≡ false
  unfolding is_in
  idle_key key rows [] h n = refl
  idle_key key rows (k ∷ ks) (l, h) n = elim (Bool-cases (eq_bytes k key)) [
    | inl same ↦ let e : k ≡ key = eq_bytes_sound k key same in absurd (n (rw e at l))
    | inr other ↦ rw other (idle_key key rows ks h n)
  ]

  pub All-Loading :
      (rows rows' : List (Bytes × Entry I)) (ks : List Bytes)
      → ((k : Bytes) → is_in k ks ≡ true → Loading rows k → Loading rows' k)
      → All (Loading rows) ks
      → All (Loading rows') ks
  unfolding is_in
  All-Loading rows rows' [] f h = tt
  All-Loading rows rows' (k ∷ ks) f (l, h) = (
    f k (rw (eq_bytes_refl k) refl) l,
    All-Loading rows rows' ks
        (λ j e.
          f j
            (elim (Bool-cases (eq_bytes k j)) [ inl same ↦ rw same refl | inr other ↦ rw other e ]))
        h,
  )
