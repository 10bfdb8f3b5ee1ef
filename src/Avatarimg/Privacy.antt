-- ===== src/Avatarimg/Privacy.antt =====
-- internal/avatarimg/cache.go: whom the cache asks for a picture.
use vayu_mail_mobile.Base.{
  ℕ, ◌+◌, ◌≡◌, refl, sym, ◌∙◌, true, Option, none, some, List, [], ◌∷◌, ◌++◌, append_assoc, Bytes,
  ltb, Bool-cases, inl, inr, All, All-at, Memᴰ,
}
use vayu_mail_mobile.Avatarimg.{
  EntryState, state_unknown, state_loading, state_loaded, state_missing, Entry, Cache, new_cache,
  last_at, normal_key, is_in, image, image_at, found, try_fetch, entry_of, set_allowed_domains,
  store, miss_retry, Move, asked, allow, replied, do_move, do_moves,
}

module _ {I : Type 0} (decode : Bytes → Option I) where
  do_moves-append :
      (a b : List Move) (c : Cache I)
      → do_moves decode (a ++ b) c ≡ do_moves decode b (do_moves decode a c)
  unfolding do_moves
  do_moves-append [] b c = refl
  do_moves-append (m ∷ a) b c = do_moves-append a b (do_move decode m c)

  -- the picture of an address was asked for while its domain was allowed
  abbrev pub Asked : List Move → Bytes × Bytes → Type 0
  Asked moves (key, domain) =
      (email : Bytes) × (local : Bytes) × (now : ℕ) × (before : List Move) × (after : List Move)
      × (moves ≡ before ++ asked email now ∷ after)
      × (key ≡ normal_key email)
      × (last_at key ≡ some (local, domain))
      × (is_in domain (do_moves decode before new_cache).allowed ≡ true)

  module _ (moves : List Move) where
    abbrev AllAsked : Cache I → Type 0
    AllAsked c = All (Asked moves) c.fetches

    try_fetch-Asked :
        (key domain : Bytes) (now : ℕ) (e : Entry I) (c : Cache I)
        → (is_in domain c.allowed ≡ true → Asked moves (key, domain))
        → AllAsked c
        → AllAsked (try_fetch key domain now e c)
    try_fetch-Asked key domain now e c a h = elim (Bool-cases (is_in domain c.allowed)) [
      | inl allowed ↦ rw allowed (a allowed, h)
      | inr refused ↦ rw refused h
    ]

    found-Asked :
        (key domain : Bytes) (now : ℕ) (s : EntryState) (e : Entry I) (c : Cache I)
        → (is_in domain c.allowed ≡ true → Asked moves (key, domain))
        → AllAsked c
        → AllAsked (found key domain now s e c).1
    found-Asked key domain now state_loaded e c a h = h
    found-Asked key domain now state_loading e c a h = h
    found-Asked key domain now state_unknown e c a h = try_fetch-Asked key domain now e c a h
    found-Asked key domain now state_missing e c a h =
        elim (Bool-cases (ltb now (e.stamp + miss_retry))) [
          | inl recent ↦ rw recent h
          | inr old ↦ rw old (try_fetch-Asked key domain now e c a h)
        ]

    image_at-Asked :
        (o : Option (Bytes × Bytes)) (key : Bytes) (now : ℕ) (c : Cache I)
        → ((local domain : Bytes)
            → o ≡ some (local, domain)
            → is_in domain c.allowed ≡ true
            → Asked moves (key, domain))
        → AllAsked c
        → AllAsked (image_at o key now c).1
    image_at-Asked none key now c a h = h
    image_at-Asked (some ([], domain)) key now c a h = h
    image_at-Asked (some (x ∷ local, [])) key now c a h = h
    image_at-Asked (some (x ∷ local, d ∷ domain)) key now c a h =
        let e = entry_of key c.entries in
        found-Asked key (d ∷ domain) now e.state e c (a (x ∷ local) (d ∷ domain) refl) h

    move-Asked :
        (m : Move) (before after : List Move)
        → moves ≡ before ++ m ∷ after
        → AllAsked (do_moves decode before new_cache)
        → AllAsked (do_move decode m (do_moves decode before new_cache))
    unfolding do_move image set_allowed_domains store
    move-Asked (asked email now) before after split h =
        image_at-Asked (last_at (normal_key email)) (normal_key email) now
          (do_moves decode before new_cache)
          (λ local domain e yes_in. (email, local, now, before, after, split, refl, e, yes_in)) h
    move-Asked (allow domains) before after split h = h
    move-Asked (replied key reply now) before after split h =
        elim (Bool-cases (is_in key (do_moves decode before new_cache).in_flight)) [
          | inl runs ↦ rw runs h
          | inr ended ↦ rw ended h
        ]

    do_moves-Asked :
        (before after : List Move)
        → moves ≡ before ++ after
        → AllAsked (do_moves decode before new_cache)
        → AllAsked (do_moves decode after (do_moves decode before new_cache))
    unfolding do_moves
    do_moves-Asked before [] split h = h
    do_moves-Asked before (m ∷ after) split h =
        let one = m ∷ [] in
        let next : do_moves decode (before ++ one) new_cache
            ≡ do_move decode m (do_moves decode before new_cache) =
          do_moves-append before one new_cache in
        let rest =
          do_moves-Asked (before ++ one) after (split ∙ sym (append_assoc before one after))
            (rw next (move-Asked m before after split h)) in
        rw next at rest

  -- In any run of a new cache, each fetch is started for an address whose picture the application asked
  -- for, with the domain behind its last at sign, and that was then one of the allowed domains. The theorem
  -- does not follow the fetch: a redirect of that domain is not covered.
  pub fetches-Asked :
      (moves : List Move) (key domain : Bytes)
      → Memᴰ (key, domain) (do_moves decode moves new_cache).fetches
      → Asked moves (key, domain)
  unfolding do_moves
  fetches-Asked moves key domain at =
      All-at (Asked moves) (do_moves decode moves new_cache).fetches (key, domain)
        (do_moves-Asked moves [] moves refl tt) at
