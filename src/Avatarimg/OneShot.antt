-- ===== src/Avatarimg/OneShot.antt =====
-- internal/avatarimg/cache.go: no two goroutines fetch the picture of one address at a time.
use vayu_mail_mobile.Base.{
  ℕ, ◌+◌, ◌≡◌, ◌≢◌, refl, sym, ◌∙◌, ap, false, not, Option, none, some, List, [], ◌∷◌, keep, Bytes,
  eq_bytes, eq_bytes_refl, ltb, Bool-cases, inl, inr, All,
}
use vayu_mail_mobile.Avatarimg.{
  EntryState, state_unknown, state_loading, state_loaded, state_missing, Entry, Cache, new_cache,
  last_at, normal_key, is_in, image, image_at, found, try_fetch, entry_of, put_entry,
  set_allowed_domains, store, fetched, miss_retry, Move, asked, allow, replied, do_move, do_moves,
}
use vayu_mail_mobile.Avatarimg.Entries.{
  Distinct, keep-Distinct, Loading, put-Loading, entry_of-put_entry, forget_misses-Loading,
  idle_key, All-Loading,
}

module _ {I : Type 0} where
  abbrev pub OneEach : Cache I → Type 0
  OneEach c = Distinct c.in_flight × All (Loading c.entries) c.in_flight

  -- the entry of a key is written back as it was
  unchanged-OneEach :
      (key : Bytes) (c : Cache I)
      → OneEach c
      → OneEach (record c { entries = put_entry key (entry_of key c.entries) c.entries })
  unchanged-OneEach key c (d, h) = (
    d,
    All-Loading c.entries _ c.in_flight
        (λ k i l. put-Loading k key (entry_of key c.entries) c.entries (λ e. rw e at l) l) h,
  )

  try_fetch-OneEach :
      (key domain : Bytes) (now : ℕ) (c : Cache I)
      → (entry_of key c.entries).state ≢ state_loading
      → OneEach c
      → OneEach (try_fetch key domain now (entry_of key c.entries) c)
  try_fetch-OneEach key domain now c n (d, h) =
      let e = entry_of key c.entries in
      let idle = idle_key key c.entries c.in_flight h n in
      elim (Bool-cases (is_in domain c.allowed)) [
        | inl allowed ↦ rw allowed (
          (idle, d),
          (
            ap (λ x. x.state)
                (entry_of-put_entry key (record e { state = state_loading }) c.entries),
            All-Loading c.entries _ c.in_flight
                (λ k i l. put-Loading k key _ c.entries (λ x. refl) l) h,
          ),
        )
        | inr refused ↦ rw refused (
          d,
          All-Loading c.entries _ c.in_flight
              (λ k i l. put-Loading k key _ c.entries (λ x. absurd (n (rw x at l))) l) h,
        )
      ]

  found-OneEach :
      (key domain : Bytes) (now : ℕ) (s : EntryState) (c : Cache I)
      → (entry_of key c.entries).state ≡ s
      → OneEach c
      → OneEach (found key domain now s (entry_of key c.entries) c).1
  found-OneEach key domain now state_loaded c e h = unchanged-OneEach key c h
  found-OneEach key domain now state_loading c e h = unchanged-OneEach key c h
  found-OneEach key domain now state_unknown c e h = try_fetch-OneEach key domain now c (λ l. cc) h
  found-OneEach key domain now state_missing c e h =
      elim (Bool-cases (ltb now ((entry_of key c.entries).stamp + miss_retry))) [
        | inl recent ↦ rw recent (unchanged-OneEach key c h)
        | inr old ↦ rw old (try_fetch-OneEach key domain now c (λ l. cc) h)
      ]

  image_at-OneEach :
      (o : Option (Bytes × Bytes)) (key : Bytes) (now : ℕ) (c : Cache I)
      → OneEach c
      → OneEach (image_at o key now c).1
  image_at-OneEach none key now c h = h
  image_at-OneEach (some ([], domain)) key now c h = h
  image_at-OneEach (some (x ∷ local, [])) key now c h = h
  image_at-OneEach (some (x ∷ local, d ∷ domain)) key now c h =
      found-OneEach key (d ∷ domain) now (entry_of key c.entries).state c refl h

  kept_others :
      (key : Bytes) (rows rows' : List (Bytes × Entry I)) (ks : List Bytes)
      → ((k : Bytes) → eq_bytes k key ≡ false → Loading rows k → Loading rows' k)
      → All (Loading rows) ks
      → All (Loading rows') (keep (λ k. not (eq_bytes k key)) ks)
  kept_others key rows rows' [] f h = tt
  kept_others key rows rows' (k ∷ ks) f (l, h) = elim (Bool-cases (eq_bytes k key)) [
    | inl same ↦ rw same (kept_others key rows rows' ks f h)
    | inr other ↦ rw other (f k other l, kept_others key rows rows' ks f h)
  ]

  store-OneEach :
      (key : Bytes) (img : Option I) (now : ℕ) (c : Cache I)
      → OneEach c
      → OneEach (store key img now c)
  unfolding store
  store-OneEach key img now c (d, h) = (
    keep-Distinct (λ k. not (eq_bytes k key)) c.in_flight d,
    kept_others key c.entries _ c.in_flight
        (λ k other l.
          put-Loading k key _ c.entries (λ e. cc (sym (eq_bytes_refl key) ∙ (rw e at other))) l)
        h,
  )

module _ {I : Type 0} (decode : Bytes → Option I) where
  do_move-OneEach : (m : Move) (c : Cache I) → OneEach c → OneEach (do_move decode m c)
  unfolding do_move image set_allowed_domains
  do_move-OneEach (asked email now) c h =
      image_at-OneEach (last_at (normal_key email)) (normal_key email) now c h
  do_move-OneEach (allow domains) c (d, h) =
      (d, All-Loading c.entries _ c.in_flight (λ k i l. forget_misses-Loading k c.entries l) h)
  do_move-OneEach (replied key reply now) c h = elim (Bool-cases (is_in key c.in_flight)) [
    | inl runs ↦ rw runs (store-OneEach key (fetched decode reply) now c h)
    | inr ended ↦ rw ended h
  ]

  moves-OneEach : (ms : List Move) (c : Cache I) → OneEach c → OneEach (do_moves decode ms c)
  unfolding do_moves
  moves-OneEach [] c h = h
  moves-OneEach (m ∷ ms) c h = moves-OneEach ms (do_move decode m c) (do_move-OneEach m c h)

  -- In any run of a new cache, at no time do two goroutines fetch the picture of one address, and an address
  -- whose picture is being fetched has the state of loading.
  pub in_flight-OneEach : (ms : List Move) → OneEach (do_moves decode ms new_cache)
  in_flight-OneEach ms = moves-OneEach ms new_cache (tt, tt)
