-- ===== src/Imapsync/Midway.antt =====
-- internal/mail/imapsync/fetch.go, SyncFolder: what holds between two turns of its loop.
use vayu_mail_mobile.Base.{
  ℕ, ◌+◌, ◌%◌, ◌^◌, ◌≤◌, ◌<◌, ◌≡◌, ◌⊎◌, sym, ap, ◌∙◌, max, Memᴰ, Bool, true, ◌||◌, some, List, [],
  ◌∷◌, map, leb, leb→le, ◌==◌, ==_iff, Bool-cases, inl, inr, All, arith,
}
use vayu_mail_mobile.Store.Messages.{Message, upsert_message, highest_uid}
use vayu_mail_mobile.Imapsync.{Buffer}
use vayu_mail_mobile.Imapsync.Fetch.{Library, Server, Faults, Sync, store_buffer, sync_turns}
use vayu_mail_mobile.Imapsync.Rows.{cached, stored_rows}

-- every message of the mailbox up to the highest cached UID is cached
abbrev pub Complete : ℕ → List ℕ → List Message → Type 0
Complete folder box rows =
    (uid : ℕ) → Memᴰ uid box → uid ≤ highest_uid folder rows → cached folder uid rows ≡ true

abbrev pub Ascending : List Buffer → Type 0
Ascending [] = Unit
Ascending (b ∷ bufs) = All (λ c. b.uid < c.uid) bufs × Ascending bufs

abbrev pub uids : List Buffer → List ℕ
uids bufs = map (λ b. b.uid) bufs

-- the server answers UID FETCH n:* in ascending order, with every message of the mailbox from n on
abbrev pub Answers : List ℕ → Server → Type 0
Answers box server =
    (n : ℕ) (bufs : List Buffer)
    → server.envelopes n ≡ some bufs
    → Ascending bufs × ((uid : ℕ) → Memᴰ uid box → n ≤ uid → Memᴰ uid (uids bufs))

le_or_gt : (a b : ℕ) → (a ≤ b) ⊎ (b < a)
le_or_gt a b = ground arith

first_le : (highest uid : ℕ) → highest < uid → (highest + 1) % 2 ^ 32 ≤ uid
first_le highest uid h = omega arith

or_right : (a : Bool) → (a || true) ≡ true
or_right a = ground arith

module _ (lib : Library) (server : Server) (faults : Faults) (account folder : ℕ)
    (box : List ℕ) where
  -- where the loop stands: what is missing is still to come, and what is to come is above the cache
  abbrev pub Midway : ℕ → List Buffer → List Message → Type 0
  Midway highest bufs rows =
      ((uid : ℕ)
        → Memᴰ uid box
        → (cached folder uid rows ≡ true) ⊎ ((highest < uid) × Memᴰ uid (uids bufs)))
      × All (λ b. (b.uid ≤ highest) ⊎ (highest_uid folder rows < b.uid)) bufs
      × Ascending bufs

  above :
      (highest top uid : ℕ) (bufs : List Buffer)
      → All (λ b. (b.uid ≤ highest) ⊎ (top < b.uid)) bufs
      → Memᴰ uid (uids bufs)
      → (uid ≤ highest) ⊎ (top < uid)
  above highest top uid [] _ at = elim at [ ]
  above highest top uid (b ∷ bufs) (a, _) (Memᴰ.head e) = rw e a
  above highest top uid (b ∷ bufs) (_, rest) (Memᴰ.tail at) = above highest top uid bufs rest at

  pub Midway-Complete :
      (highest : ℕ) (bufs : List Buffer) (rows : List Message)
      → Midway highest bufs rows
      → Complete folder box rows
  Midway-Complete highest bufs rows (there, higher, _) uid at le = elim (there uid at) [
    | inl c ↦ c
    | inr (over, later) ↦ elim (above highest (highest_uid folder rows) uid bufs higher later) [
      | inl below ↦ let no_way : ⊥ = omega (arith, over, below) in elim no_way [ ]
      | inr beyond ↦ let no_way : ⊥ = omega (arith, le, beyond) in elim no_way [ ]
    ]
  ]

  pub skip-Midway :
      (highest : ℕ) (b : Buffer) (bufs : List Buffer) (rows : List Message)
      → b.uid ≤ highest
      → Midway highest (b ∷ bufs) rows
      → Midway highest bufs rows
  skip-Midway highest b bufs rows le (there, (_, higher), (_, ascending)) = (
    λ uid at. elim (there uid at) [
      | inl c ↦ inl c
      | inr (over, Memᴰ.head e) ↦ let no_way : ⊥ = omega (arith, over, le, e) in elim no_way [ ]
      | inr (over, Memᴰ.tail later) ↦ inr (over, later)
    ],
    higher,
    ascending,
  )

  raise_above :
      (highest top uid : ℕ) (bufs : List Buffer)
      → All (λ c. uid < c.uid) bufs
      → All (λ c. (c.uid ≤ highest) ⊎ (top < c.uid)) bufs
      → All (λ c. (c.uid ≤ highest) ⊎ (max uid top < c.uid)) bufs
  raise_above highest top uid [] _ _ = tt
  raise_above highest top uid (c ∷ bufs) (lt, asc) (inl le, rest) =
      (inl le, raise_above highest top uid bufs asc rest)
  raise_above highest top uid (c ∷ bufs) (lt, asc) (inr gt, rest) =
      (inr (omega (arith, lt, gt)), raise_above highest top uid bufs asc rest)

  pub store-Midway :
      (highest done total : ℕ) (b : Buffer) (bufs : List Buffer) (s : Sync)
      → Midway highest (b ∷ bufs) s.db.messages
      → Midway highest bufs
          (store_buffer lib server faults account folder b done total s).db.messages
  unfolding store_buffer upsert_message
  store-Midway highest done total b bufs s (there, (_, higher), (asc, ascending)) =
      let (top, has) = stored_rows lib server account folder s.db.next_message b s.db.messages in
      (
        λ uid at. elim (there uid at) [
          | inl c ↦ inl (has uid ∙ ap (λ x. (b.uid == uid) || x) c ∙ or_right (b.uid == uid))
          | inr (over, Memᴰ.head e) ↦ inl (
              has uid
              ∙ ap (λ x. x || cached folder uid s.db.messages) ((==_iff b.uid uid).1 (sym e)))
          | inr (over, Memᴰ.tail later) ↦ inr (over, later)
        ],
        rw top (raise_above highest (highest_uid folder s.db.messages) b.uid bufs asc higher),
        ascending,
      )

  pub turns-Complete :
      (highest total done : ℕ) (bufs : List Buffer) (s : Sync)
      → Midway highest bufs s.db.messages
      → Complete folder box
          (sync_turns lib server faults account folder highest total done bufs s).1.db.messages
  unfolding sync_turns
  turns-Complete highest total done [] s m = Midway-Complete highest [] s.db.messages m
  turns-Complete highest total done (b ∷ bufs) s m = elim (Bool-cases (faults.stopped done)) [
    | inl stop ↦ rw stop (Midway-Complete highest (b ∷ bufs) s.db.messages m)
    | inr go ↦ rw go (elim (Bool-cases (leb b.uid highest)) [
      | inl old ↦ rw old (
          turns-Complete highest total (done + 1) bufs s
            (skip-Midway highest b bufs s.db.messages (leb→le b.uid highest old) m))
      | inr new ↦ rw new (elim (Bool-cases (faults.refuses done)) [
        | inl refused ↦ rw refused (Midway-Complete highest (b ∷ bufs) s.db.messages m)
        | inr taken ↦ rw taken (
            turns-Complete highest total (done + 1) bufs
              (store_buffer lib server faults account folder b done total s)
              (store-Midway highest done total b bufs s m))
      ])
    ])
  ]

  each_or :
      (highest : ℕ) (bufs : List Buffer) → All (λ b. (b.uid ≤ highest) ⊎ (highest < b.uid)) bufs
  each_or highest [] = tt
  each_or highest (b ∷ bufs) = (le_or_gt b.uid highest, each_or highest bufs)

  pub start-Midway :
      (bufs : List Buffer) (rows : List Message)
      → Answers box server
      → server.envelopes ((highest_uid folder rows + 1) % 2 ^ 32) ≡ some bufs
      → Complete folder box rows
      → Midway (highest_uid folder rows) bufs rows
  start-Midway bufs rows answers e complete =
      let highest = highest_uid folder rows in
      let (ascending, covers) = answers ((highest + 1) % 2 ^ 32) bufs e in
      (
        λ uid at. elim (le_or_gt uid highest) [
          | inl le ↦ inl (complete uid at le)
          | inr over ↦ inr (over, covers uid at (first_le highest uid over))
        ],
        each_or highest bufs,
        ascending,
      )
