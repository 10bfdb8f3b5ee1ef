-- ===== src/Imapsync/Mirror.antt =====
-- internal/mail/imapsync/fetch.go, SyncFolder: a sync that nothing interrupts.
use vayu_mail_mobile.Base.{
  ℕ, ◌+◌, ◌%◌, ◌^◌, ◌<◌, ◌≡◌, refl, Memᴰ, true, false, some, List, [], ◌∷◌, length, leb, leb→le,
  ◌==◌, Bool-cases, inl, inr, arith, All, All-at, Result, ok, ◌>>◌,
}
use vayu_mail_mobile.Store.Messages.{
  Message, Folder, highest_uid, clear_folder_messages, set_folder_sync_state,
}
use vayu_mail_mobile.Imapsync.{Buffer, Selected}
use vayu_mail_mobile.Imapsync.Fetch.{
  Library, Server, Faults, Sync, SyncError, store_buffer, sync_turns, fetch_new, set_state, is_new,
  clear_if_new, sync_folder,
}
use vayu_mail_mobile.Imapsync.Rows.{cached}
use vayu_mail_mobile.Imapsync.Midway.{
  Complete, Answers, Midway, skip-Midway, store-Midway, start-Midway,
}
use vayu_mail_mobile.Imapsync.Resume.{cleared-Complete, sync_folder-Complete}

-- nothing goes wrong
abbrev pub Quiet : Faults → Type 0
Quiet faults =
    ((n : ℕ) → (faults.stopped n ≡ false) × (faults.refuses n ≡ false))
    × (faults.clear_fails ≡ false)
    × (faults.state_fails ≡ false)
    × (faults.highest_fails ≡ false)

module _ (lib : Library) (server : Server) (faults : Faults) (account folder : ℕ) (box : List ℕ)
    (quiet : Quiet faults) where
  abbrev Mirrored : Result SyncError (Unit {0}) × Sync → Type 0
  Mirrored r = (r.0 ≡ ok tt) × ((uid : ℕ) → Memᴰ uid box → cached folder uid r.1.db.messages ≡ true)

  finished :
      (highest : ℕ) (rows : List Message)
      → Midway lib server faults account folder box highest [] rows
      → (uid : ℕ) → Memᴰ uid box
      → cached folder uid rows ≡ true
  finished highest rows (there, _, _) uid at = elim (there uid at) [
    | inl c ↦ c
    | inr (over, later) ↦ elim later [ ]
  ]

  turns-Mirrored :
      (highest total done : ℕ) (bufs : List Buffer) (s : Sync)
      → Midway lib server faults account folder box highest bufs s.db.messages
      → Mirrored (sync_turns lib server faults account folder highest total done bufs s)
  unfolding sync_turns
  turns-Mirrored highest total done [] s m = (refl, finished highest s.db.messages m)
  turns-Mirrored highest total done (b ∷ bufs) s m =
      let (go, taken) = quiet.0 done in
      rw go (elim (Bool-cases (leb b.uid highest)) [
        | inl old ↦ rw old (
            turns-Mirrored highest total (done + 1) bufs s (
              skip-Midway lib server faults account folder box highest b bufs s.db.messages
                (leb→le b.uid highest old) m))
        | inr new ↦ rw new (
            rw taken (
              turns-Mirrored highest total (done + 1) bufs
                (store_buffer lib server faults account folder b done total s)
                (store-Midway lib server faults account folder box highest done total b bufs s m)))
      ])

  fetch_new-Mirrored :
      (num : ℕ) (bufs : List Buffer) (s : Sync)
      → (num == 0) ≡ false
      → Answers box server
      → server.envelopes ((highest_uid folder s.db.messages + 1) % 2 ^ 32) ≡ some bufs
      → Complete folder box s.db.messages
      → Mirrored (fetch_new lib server faults account folder num s)
  unfolding fetch_new sync_turns store_buffer
  fetch_new-Mirrored num bufs s n answers e complete =
      let reads = quiet.3 in
      rw reads (
        rw n (
          rw e (
            turns-Mirrored (highest_uid folder s.db.messages) (length bufs) 0 bufs s (
              start-Midway lib server faults account folder box bufs s.db.messages answers e
                complete))))

  after_clear :
      (selected : Selected) (s : Sync)
      → ((n : ℕ) → (bufs : List Buffer) × (server.envelopes n ≡ some bufs))
      → (selected.num_messages == 0) ≡ false
      → Answers box server
      → Complete folder box s.db.messages
      → Mirrored (
          (set_state lib server faults account folder selected
              >> fetch_new lib server faults account folder selected.num_messages)
            s)
  unfolding set_state set_folder_sync_state fetch_new sync_turns store_buffer
  after_clear selected s responds n answers complete =
      let done = quiet.2 in
      let (bufs, e) = responds ((highest_uid folder s.db.messages + 1) % 2 ^ 32) in
      rw done (
        fetch_new-Mirrored selected.num_messages bufs
          (record s {
            db = set_folder_sync_state folder selected.uid_validity selected.highest_modseq s.db;
          })
          n answers e complete)

-- a sync that nothing interrupts, where everything up to the highest cached UID is cached
sync_folder-rest :
    (lib : Library) (server : Server) (faults : Faults) (account : ℕ) (folder : Folder)
    (selected : Selected) (box : List ℕ) (s : Sync)
    → Quiet faults
    → All (λ uid. 0 < uid) box
    → (selected.num_messages == 0) ≡ false
    → ((n : ℕ) → (bufs : List Buffer) × (server.envelopes n ≡ some bufs))
    → Answers box server
    → (is_new folder.uid_validity selected ≡ false → Complete folder.id box s.db.messages)
    → ((sync_folder lib server faults account folder selected s).0 ≡ ok tt)
      × ((uid : ℕ)
          → Memᴰ uid box
          → cached folder.id uid
              (sync_folder lib server faults account folder selected s).1.db.messages
            ≡ true)
unfolding sync_folder clear_if_new clear_folder_messages set_state fetch_new sync_turns store_buffer
sync_folder-rest lib server faults account folder selected box s quiet above_zero n responds answers
      before =
    elim (Bool-cases (is_new folder.uid_validity selected)) [
      | inl new ↦
          let clears = quiet.1 in
          rw new (
            rw clears (
              after_clear lib server faults account folder.id box quiet selected
                (record s { db = clear_folder_messages folder.id s.db }) responds n answers
                (cleared-Complete lib server faults account folder.id box s.db.messages
                  above_zero)))
      | inr same ↦ rw same (
          after_clear lib server faults account folder.id box quiet selected s responds n answers
            (before same))
    ]

-- an earlier sync of the folder: what went wrong, the UIDVALIDITY that was known, and what the SELECT told
pub record Earlier : Type 0 where
  pub faults : Faults
  pub uid_validity : ℕ
  pub selected : Selected

-- the earlier syncs, one after the other
abbrev pub sync_all : Library → Server → ℕ → Folder → List Earlier → Sync → Sync
sync_all lib server account folder [] s = s
sync_all lib server account folder (e ∷ es) s =
    sync_all lib server account folder es
      (sync_folder lib server e.faults account (record folder { uid_validity = e.uid_validity })
        e.selected s).1

empty-Complete :
    (folder : ℕ) (box : List ℕ) (rows : List Message)
    → All (λ uid. 0 < uid) box
    → highest_uid folder rows ≡ 0
    → Complete folder box rows
empty-Complete folder box rows above_zero none_cached uid at le =
    let positive : 0 < uid = All-at (λ u. 0 < u) box uid above_zero at in
    let no_way : ⊥ = omega (arith, positive, le, none_cached) in elim no_way [ ]

sync_all-Complete :
    (lib : Library) (server : Server) (account : ℕ) (folder : Folder) (box : List ℕ)
    (earlier : List Earlier) (s : Sync)
    → All (λ uid. 0 < uid) box
    → Answers box server
    → All (λ e. e.faults.clear_fails ≡ false) earlier
    → Complete folder.id box s.db.messages
    → Complete folder.id box (sync_all lib server account folder earlier s).db.messages
sync_all-Complete lib server account folder box [] s above_zero answers clears g = g
sync_all-Complete lib server account folder box (e ∷ es) s above_zero answers (clear, clears) g =
    let f : Folder = record folder { uid_validity = e.uid_validity } in
    sync_all-Complete lib server account folder box es
      (sync_folder lib server e.faults account f e.selected s).1 above_zero answers clears
      (sync_folder-Complete lib server e.faults account f e.selected box s above_zero answers
        (λ _. clear) (λ _. g))

-- Of a folder nothing is cached, and any number of syncs follow, each cancelled by its context or refused
-- by the database at any point, except that the rows of an old UIDVALIDITY can be deleted. Its mailbox
-- `box` is not empty and has no UID zero, and the server answers every fetch in ascending order and
-- completely. Then one more sync, which neither the context nor the database interrupts, succeeds, and
-- every message of the mailbox is cached.
pub sync_folder-Mirrored :
    (lib : Library) (server : Server) (faults : Faults) (account : ℕ) (folder : Folder)
    (selected : Selected) (box : List ℕ) (earlier : List Earlier) (s : Sync)
    → highest_uid folder.id s.db.messages ≡ 0
    → All (λ e. e.faults.clear_fails ≡ false) earlier
    → Quiet faults
    → All (λ uid. 0 < uid) box
    → (selected.num_messages == 0) ≡ false
    → ((n : ℕ) → (bufs : List Buffer) × (server.envelopes n ≡ some bufs))
    → Answers box server
    → let interrupted = sync_all lib server account folder earlier s in
      ((sync_folder lib server faults account folder selected interrupted).0 ≡ ok tt)
      × ((uid : ℕ)
          → Memᴰ uid box
          → cached folder.id uid
              (sync_folder lib server faults account folder selected interrupted).1.db.messages
            ≡ true)
sync_folder-Mirrored lib server faults account folder selected box earlier s none_cached clears
      quiet above_zero n responds answers =
    sync_folder-rest lib server faults account folder selected box
      (sync_all lib server account folder earlier s) quiet above_zero n responds answers
      (λ _.
        sync_all-Complete lib server account folder box earlier s above_zero answers clears
          (empty-Complete folder.id box s.db.messages above_zero none_cached))
