-- ===== src/Imapsync/Resume.antt =====
-- internal/mail/imapsync/fetch.go, SyncFolder: no message is passed over, whatever interrupts a sync.
use vayu_mail_mobile.Base.{
  ℕ, ◌+◌, ◌%◌, ◌^◌, ◌<◌, ◌≡◌, refl, true, false, not, Option, none, some, List, [], ◌∷◌, keep,
  length, ◌==◌, Bool-cases, inl, inr, All, All-at, Keeps, bind-Keeps, ◌>>◌, arith,
}
use vayu_mail_mobile.Store.Messages.{
  Message, Folder, in_folder, highest_uid, clear_folder_messages, set_folder_sync_state,
}
use vayu_mail_mobile.Imapsync.{Buffer, Selected}
use vayu_mail_mobile.Imapsync.Fetch.{
  Library, Server, Faults, Sync, store_buffer, sync_turns, with_envelopes, fetch_new, set_state,
  is_new, clear_if_new, sync_folder,
}
use vayu_mail_mobile.Imapsync.Midway.{Complete, Answers, turns-Complete, start-Midway}

highest_uid-cleared :
    (folder : ℕ) (rows : List Message)
    → highest_uid folder (keep (λ r. not (in_folder folder r)) rows) ≡ 0
unfolding highest_uid
highest_uid-cleared folder [] = refl
highest_uid-cleared folder (r ∷ rows) = elim (Bool-cases (in_folder folder r)) [
  | inl inside ↦ rw inside (highest_uid-cleared folder rows)
  | inr outside ↦ rw outside (rw outside (highest_uid-cleared folder rows))
]

module _ (lib : Library) (server : Server) (faults : Faults) (account folder : ℕ)
    (box : List ℕ) where
  fetched-Complete :
      (o : Option (List Buffer)) (s : Sync)
      → Answers box server
      → server.envelopes ((highest_uid folder s.db.messages + 1) % 2 ^ 32) ≡ o
      → Complete folder box s.db.messages
      → Complete folder box
          (with_envelopes lib server faults account folder
            (highest_uid folder s.db.messages)
            o
            s).1.db.messages
  fetched-Complete none s answers e complete = complete
  fetched-Complete (some bufs) s answers e complete =
      turns-Complete lib server faults account folder box (highest_uid folder s.db.messages)
        (length bufs) 0 bufs s
        (start-Midway lib server faults account folder box bufs s.db.messages answers e complete)

  fetch_new-Complete :
      (num : ℕ) (s : Sync)
      → Answers box server
      → Complete folder box s.db.messages
      → Complete folder box (fetch_new lib server faults account folder num s).1.db.messages
  unfolding fetch_new sync_turns store_buffer
  fetch_new-Complete num s answers complete = elim (Bool-cases faults.highest_fails) [
    | inl fails ↦ rw fails complete
    | inr read ↦ rw read (elim (Bool-cases (num == 0)) [
      | inl empty ↦ rw empty complete
      | inr some_there ↦ rw some_there (
          fetched-Complete (server.envelopes ((highest_uid folder s.db.messages + 1) % 2 ^ 32)) s
            answers refl complete)
    ])
  ]

  Good : Sync → Type 0
  Good s = Complete folder box s.db.messages

  set_state-Good :
      (selected : Selected) → Keeps Good (set_state lib server faults account folder selected)
  unfolding set_state set_folder_sync_state Good
  set_state-Good selected s g = elim (Bool-cases faults.state_fails) [
    | inl fails ↦ rw fails g
    | inr done ↦ rw done g
  ]

  after_clear :
      Answers box server
      → (selected : Selected)
      → Keeps Good (
          set_state lib server faults account folder selected
          >> fetch_new lib server faults account folder selected.num_messages)
  unfolding Good
  after_clear answers selected =
      bind-Keeps Good (set_state lib server faults account folder selected)
        (λ _. fetch_new lib server faults account folder selected.num_messages)
        (set_state-Good selected)
        (λ _ s complete. fetch_new-Complete selected.num_messages s answers complete)

  pub cleared-Complete :
      (rows : List Message)
      → All (λ uid. 0 < uid) box
      → Complete folder box (keep (λ r. not (in_folder folder r)) rows)
  cleared-Complete rows above_zero uid at le =
      let positive : 0 < uid = All-at (λ u. 0 < u) box uid above_zero at in
      let none_left = highest_uid-cleared folder rows in
      let no_way : ⊥ = omega (arith, positive, le, none_left) in elim no_way [ ]

-- The mailbox `box` has no UID zero, and the server answers a fetch in ascending order and completely.
-- Where UIDVALIDITY is as before and every message up to the highest cached UID is cached, or where it is
-- new and the old rows can be deleted, every message of the mailbox up to the highest cached UID is cached
-- after `sync_folder`, also when it is cancelled or refused by the database at any point: the next sync,
-- which starts above that UID, passes over no message.
pub sync_folder-Complete :
    (lib : Library) (server : Server) (faults : Faults) (account : ℕ) (folder : Folder)
    (selected : Selected) (box : List ℕ) (s : Sync)
    → All (λ uid. 0 < uid) box
    → Answers box server
    → (is_new folder.uid_validity selected ≡ true → faults.clear_fails ≡ false)
    → (is_new folder.uid_validity selected ≡ false → Complete folder.id box s.db.messages)
    → Complete folder.id box (sync_folder lib server faults account folder selected s).1.db.messages
unfolding sync_folder clear_if_new clear_folder_messages Good set_state fetch_new sync_turns
    store_buffer
sync_folder-Complete lib server faults account folder selected box s above_zero answers clears
      before =
    elim (Bool-cases (is_new folder.uid_validity selected)) [
      | inl new ↦ rw new (
          rw (clears new) (
            after_clear lib server faults account folder.id box answers selected
              (record s { db = clear_folder_messages folder.id s.db })
              (cleared-Complete lib server faults account folder.id box s.db.messages above_zero)))
      | inr same ↦
          rw same
            (after_clear lib server faults account folder.id box answers selected s (before same))
    ]
