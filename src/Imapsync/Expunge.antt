-- ===== src/Imapsync/Expunge.antt =====
-- internal/mail/imapsync/idle.go, reconcileExpunged, with DeleteMessagesNotIn of the store.
use vayu_mail_mobile.Base.{
  ==_refl, ℕ, ◌≡◌, ◌≢◌, refl, sym, ap, ◌∙◌, Memᴰ, Bool, true, false, not, ◌&&◌, ◌||◌, some, List,
  [], ◌∷◌, keep, Bytes, ltb, ◌==◌, Bool-cases, inl, inr, All, All-at, ok, arith,
}
use vayu_mail_mobile.Store.Messages.{
  Message, Folder, in_folder, stale_ids, delete_ids, delete_messages_not_in,
  get_folder_by_full_name,
}
use vayu_mail_mobile.Imapsync.Fetch.{Server, Sync}
use vayu_mail_mobile.Imapsync.Idle.{is_live, in_named, reconcile_expunged}

-- the ids of the rows are distinct, as a primary key's
abbrev pub DistinctIds : List Message → Type 0
DistinctIds [] = Unit
DistinctIds (r ∷ rows) = All (λ q. r.id ≢ q.id) rows × DistinctIds rows

has_id : ℕ → List ℕ → Bool
has_id id [] = false
has_id id (i ∷ ids) = let rest = has_id id ids in id == i || rest

-- a row of the folder that the server no longer has
abbrev pub is_dead : ℕ → (ℕ → Bool) → Message → Bool
is_dead folder live r = (in_folder folder r && ltb 0 r.uid) && not (live r.uid)

keep_same :
    (p q : Message → Bool) (rows : List Message)
    → ((r : Message) → Memᴰ r rows → p r ≡ q r)
    → keep p rows ≡ keep q rows
keep_same p q [] h = refl
keep_same p q (r ∷ rows) h =
    let rest = keep_same p q rows (λ x at. h x (Memᴰ.tail at)) in
    rw (h r (Memᴰ.head refl)) (rw rest refl)

keep-keep :
    (i : ℕ) (ids : List ℕ) (rows : List Message)
    → keep (λ r. not (has_id r.id ids)) (keep (λ r. not (r.id == i)) rows)
      ≡ keep (λ r. not (has_id r.id (i ∷ ids))) rows
unfolding has_id
keep-keep i ids [] = refl
keep-keep i ids (r ∷ rows) = elim (Bool-cases (r.id == i)) [
  | inl same ↦ rw same (keep-keep i ids rows)
  | inr other ↦ rw other (rw (keep-keep i ids rows) refl)
]

keep_all : (rows : List Message) → rows ≡ keep (λ r. true) rows
keep_all [] = refl
keep_all (r ∷ rows) = ap (λ t. r ∷ t) (keep_all rows)

not_equal : (a b : ℕ) → a ≢ b → (a == b) ≡ false
not_equal a b h = ground arith

delete_ids-keep :
    (ids : List ℕ) (rows : List Message)
    → delete_ids ids rows ≡ keep (λ r. not (has_id r.id ids)) rows
unfolding delete_ids has_id
delete_ids-keep [] rows = keep_all rows
delete_ids-keep (i ∷ ids) rows =
    delete_ids-keep ids (keep (λ r. not (r.id == i)) rows) ∙ keep-keep i ids rows

module _ (folder : ℕ) (live : ℕ → Bool) where
  not_stale :
      (id : ℕ) (rows : List Message)
      → All (λ q. id ≢ q.id) rows
      → has_id id (stale_ids folder live rows) ≡ false
  unfolding has_id stale_ids
  not_stale id [] h = refl
  not_stale id (q ∷ rows) (other, h) = elim (Bool-cases (is_dead folder live q)) [
    | inl dead ↦ rw dead (rw (not_equal id q.id other) (not_stale id rows h))
    | inr alive ↦ rw alive (not_stale id rows h)
  ]

  stale_iff :
      (rows : List Message)
      → DistinctIds rows
      → (r : Message) → Memᴰ r rows
      → has_id r.id (stale_ids folder live rows) ≡ is_dead folder live r
  unfolding has_id stale_ids
  stale_iff [] _ r at = elim at [ ]
  stale_iff (q ∷ rows) (fresh, distinct) r (Memᴰ.head e) =
      rw e (elim (Bool-cases (is_dead folder live q)) [
        | inl dead ↦ rw dead (rw (==_refl q.id) refl)
        | inr alive ↦ rw alive (not_stale q.id rows fresh)
      ])
  stale_iff (q ∷ rows) (fresh, distinct) r (Memᴰ.tail at) =
      let rest = stale_iff rows distinct r at in
      elim (Bool-cases (is_dead folder live q)) [
        | inl dead ↦
            rw dead (
              rw (not_equal r.id q.id (λ e. All-at (λ x. q.id ≢ x.id) rows r fresh at (sym e)))
                rest)
        | inr alive ↦ rw alive rest
      ]

  delete-keep :
      (rows : List Message)
      → DistinctIds rows
      → delete_ids (stale_ids folder live rows) rows ≡ keep (λ r. not (is_dead folder live r)) rows
  delete-keep rows distinct =
      delete_ids-keep (stale_ids folder live rows) rows
      ∙ keep_same (λ r. not (has_id r.id (stale_ids folder live rows)))
          (λ r. not (is_dead folder live r)) rows (λ r at. ap not (stale_iff rows distinct r at))

-- The folder is known and the server answers with the UIDs `live` of the mailbox. `reconcile_expunged`
-- then succeeds and leaves exactly the rows of other folders, those that have no UID yet, and those whose
-- UID is live, in their order.
reconcile_expunged-keep :
    (server : Server) (account : ℕ) (name : Bytes) (f : Folder) (live : List ℕ) (s : Sync)
    → get_folder_by_full_name account name s.db.folders ≡ some f
    → server.inventory ≡ some live
    → DistinctIds s.db.messages
    → ((reconcile_expunged server false account name s).0 ≡ ok tt)
      × ((reconcile_expunged server false account name s).1.db.messages
          ≡ keep (λ r. not (is_dead f.id (is_live live) r)) s.db.messages)
unfolding reconcile_expunged in_named delete_messages_not_in
reconcile_expunged-keep server account name f live s known answer distinct =
    rw known (rw answer (refl, delete-keep f.id (is_live live) s.db.messages distinct))
