-- ===== src/Imapsync/Anchor.antt =====
-- internal/mail/imapsync: the CONDSTORE anchor that SyncFolder writes, and RefreshFlags after it.
use vayu_mail_mobile.Base.{
  ==_refl, ℕ, ◌+◌, ◌<◌, ◌≡◌, refl, ap, ◌∙◌, true, false, ◌&&◌, Option, none, some, List, [], ◌∷◌,
  map, keep, ◌%◌, ◌^◌, Bytes, eq_bytes, length, leb, ltb, ◌==◌, if◌then◌else◌, Bool-cases, inl, inr,
  Keeps,
}
use vayu_mail_mobile.Store.Messages.{
  get_message_by_uid, Folder, highest_uid, upsert_message, clear_folder_messages,
  set_folder_sync_state, get_folder_by_full_name,
}
use vayu_mail_mobile.Imapsync.{Buffer, Selected}
use vayu_mail_mobile.Imapsync.Fetch.{
  Library, Server, Faults, Sync, store_buffer, sync_turns, with_envelopes, fetch_new, set_state,
  is_new, clear_if_new, sync_folder,
}
use vayu_mail_mobile.Imapsync.Idle.{differs, refresh_flags}
use vayu_mail_mobile.Imapsync.Unchanged.{IsUnchanged, refresh_unchanged}

abbrev anchored : Folder → Selected → Folder
anchored f selected = record f {
  uid_validity = selected.uid_validity;
  highest_modseq = selected.highest_modseq;
}

get-set :
    (account : ℕ) (name : Bytes) (f : Folder) (selected : Selected) (folders : List Folder)
    → get_folder_by_full_name account name folders ≡ some f
    → get_folder_by_full_name account name
        (map (λ g. if g.id == f.id then anchored g selected else g) folders)
      ≡ some (anchored f selected)
unfolding get_folder_by_full_name
get-set account name f selected [] h = cc
get-set account name f selected (g ∷ folders) h =
    elim (Bool-cases (g.account_id == account && eq_bytes g.full_name name)) [
      | inl named ↦
          let e : some g ≡ some f = rw named at h in
          let same : g ≡ f = cc in
          let named_f : (f.account_id == account && eq_bytes f.full_name name) ≡ true =
            rw same at named in
          rw same (rw (==_refl f.id) (rw named_f refl))
      | inr other ↦
          let rest = get-set account name f selected folders (rw other at h) in
          elim (Bool-cases (g.id == f.id)) [
            | inl same ↦ rw same (rw other rest)
            | inr differs ↦ rw differs (rw other rest)
          ]
    ]

module _ (lib : Library) (server : Server) (faults : Faults) (account folder : ℕ)
    (F : List Folder) where
  Same : Sync → Type 0
  Same s = s.db.folders ≡ F

  turns-Same :
      (highest total done : ℕ) (bufs : List Buffer)
      → Keeps Same (sync_turns lib server faults account folder highest total done bufs)
  unfolding sync_turns store_buffer upsert_message Same
  turns-Same highest total done [] s same = same
  turns-Same highest total done (b ∷ bufs) s same = elim (Bool-cases (faults.stopped done)) [
    | inl stop ↦ rw stop same
    | inr go ↦ rw go (elim (Bool-cases (leb b.uid highest)) [
      | inl old ↦ rw old (turns-Same highest total (done + 1) bufs s same)
      | inr new ↦ rw new (elim (Bool-cases (faults.refuses done)) [
        | inl refused ↦ rw refused same
        | inr taken ↦ rw taken (
            turns-Same highest total (done + 1) bufs
              (store_buffer lib server faults account folder b done total s) same)
      ])
    ])
  ]

  envelopes-Same :
      (highest : ℕ) (o : Option (List Buffer))
      → Keeps Same (with_envelopes lib server faults account folder highest o)
  envelopes-Same highest none s same = same
  envelopes-Same highest (some bufs) s same = turns-Same highest (length bufs) 0 bufs s same

  fetch_new-Same : (num : ℕ) → Keeps Same (fetch_new lib server faults account folder num)
  unfolding fetch_new sync_turns store_buffer Same
  fetch_new-Same num s same = elim (Bool-cases faults.highest_fails) [
    | inl fails ↦ rw fails same
    | inr read ↦ rw read (elim (Bool-cases (num == 0)) [
      | inl empty ↦ rw empty same
      | inr some_there ↦ rw some_there (
          envelopes-Same (highest_uid folder s.db.messages)
            (server.envelopes ((highest_uid folder s.db.messages + 1) % 2 ^ 32)) s same)
    ])
  ]

synced_folders :
    (lib : Library) (server : Server) (faults : Faults) (account : ℕ) (f : Folder)
    (selected : Selected) (s : Sync)
    → (is_new f.uid_validity selected ≡ true → faults.clear_fails ≡ false)
    → faults.state_fails ≡ false
    → (sync_folder lib server faults account f selected s).1.db.folders
      ≡ map (λ g. if g.id == f.id then anchored g selected else g) s.db.folders
unfolding sync_folder clear_if_new clear_folder_messages set_state set_folder_sync_state fetch_new
    sync_turns store_buffer Same
synced_folders lib server faults account f selected s clears writes =
    let F = map (λ g. if g.id == f.id then anchored g selected else g) s.db.folders in
    elim (Bool-cases (is_new f.uid_validity selected)) [
      | inl new ↦
          let clear = clears new in
          rw new (
            rw clear (
              rw writes (
                fetch_new-Same lib server faults account f.id F selected.num_messages
                  (record s {
                    db =
                        set_folder_sync_state f.id selected.uid_validity selected.highest_modseq
                          (clear_folder_messages f.id s.db);
                  })
                  refl)))
      | inr old ↦ rw old (
          rw writes (
            fetch_new-Same lib server faults account f.id F selected.num_messages
              (record s {
                db = set_folder_sync_state f.id selected.uid_validity selected.highest_modseq s.db;
              })
              refl))
    ]

-- The server has CONDSTORE, `box` is the mailbox at the refresh, and a fetch with CHANGEDSINCE answers with
-- the messages of it that changed after the number. Then `refresh_flags`, after a `sync_folder` that could
-- write its anchors, leaves the cached row of every message that has not changed since the SELECT of that
-- sync as it is, whatever its flags are on the server and in the cache: a flag that another device changed
-- before that SELECT is not seen. Other messages may have changed since.
pub refresh_flags-sync_folder :
    (lib : Library) (server : Server) (faults : Faults) (account : ℕ) (name : Bytes) (f : Folder)
    (selected : Selected) (box : List Buffer) (s : Sync) (uid : ℕ)
    → get_folder_by_full_name account name s.db.folders ≡ some f
    → (is_new f.uid_validity selected ≡ true → faults.clear_fails ≡ false)
    → faults.state_fails ≡ false
    → server.condstore ≡ true
    → 0 < selected.highest_modseq
    → IsUnchanged selected.highest_modseq uid box
    → server.changed selected.highest_modseq
      ≡ some (keep (λ b. ltb selected.highest_modseq b.modseq) box)
    → let synced = (sync_folder lib server faults account f selected s).1 in
      get_message_by_uid f.id uid (refresh_flags server faults account name synced).1.db.messages
      ≡ get_message_by_uid f.id uid synced.db.messages
refresh_flags-sync_folder lib server faults account name f selected box s uid known clears writes
      condstore anchor unchanged answer =
    let folders = synced_folders lib server faults account f selected s clears writes in
    refresh_unchanged server faults account name (anchored f selected) box
      (sync_folder lib server faults account f selected s).1 uid
      (ap (λ t. get_folder_by_full_name account name t) folders
        ∙ get-set account name f selected s.db.folders known)
      condstore anchor unchanged answer
