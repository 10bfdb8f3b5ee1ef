-- ===== src/Imapsync/Idle.antt =====
-- internal/mail/imapsync/idle.go: what a notification of the server starts, and the reconnect schedule.
-- The queries of a folder and of its flags succeed; the loops that wait for the server, the clock and the
-- cancellation are not modelled.
use vayu_mail_mobile.Base.{
  eq_bool, ℕ, zero, suc, ◌+◌, ◌*◌, Bool, true, false, not, ◌&&◌, Option, none, some, List, [], ◌∷◌,
  ◌++◌, Bytes, eq_bytes, max, ltb, ◌==◌, if◌then◌else◌, Exec, pure, raise, ◌>>◌,
}
use vayu_mail_mobile.Store.Messages.{
  Folder, FlagState, folder_flags, update_message_flags, delete_messages_not_in,
  get_folder_by_full_name, set_folder_sync_state,
}
use vayu_mail_mobile.Imapsync.{Buffer, join_flags, has_flag, seen, flagged}
use vayu_mail_mobile.Imapsync.Fetch.{
  SyncError, not_found, store_failed, fetch_failed, Library, Server, Faults, Sync, sync_folder,
}

abbrev pub backoff_initial : ℕ
backoff_initial = 5

abbrev pub backoff_max : ℕ
backoff_max = 300

-- in seconds, after one more session has ended
unfoldable pub next_backoff : ℕ → ℕ
next_backoff backoff = if ltb backoff_max (backoff * 2) then backoff_max else backoff * 2

-- the wait after `sessions` sessions have ended before
unfoldable pub backoff_after : ℕ → ℕ
backoff_after zero = backoff_initial
backoff_after (suc sessions) = next_backoff (backoff_after sessions)

pub record Notification : Type 0 where
  pub expunged_seq : ℕ
  pub flags_changed : Bool

abbrev pub with_folder :
    Option Folder → (Folder → Exec Sync SyncError (Unit {0})) → Exec Sync SyncError (Unit {0})
with_folder none k = raise not_found
with_folder (some f) k = k f

unfoldable pub in_named :
    ℕ → Bytes → (Folder → Exec Sync SyncError (Unit {0})) → Exec Sync SyncError (Unit {0})
in_named account name k s = with_folder (get_folder_by_full_name account name s.db.folders) k s

unfoldable pub is_live : List ℕ → ℕ → Bool
is_live [] uid = false
is_live (u ∷ live) uid = let rest = is_live live uid in if u == uid then true else rest

abbrev pub delete_dead : Bool → Folder → Option (List ℕ) → Exec Sync SyncError (Unit {0})
delete_dead refused f none s = raise fetch_failed s
delete_dead refused f (some live) s =
    if refused
    then raise store_failed s
    else pure tt (record s { db = delete_messages_not_in f.id (is_live live) s.db })

unfoldable pub reconcile_expunged : Server → Bool → ℕ → Bytes → Exec Sync SyncError (Unit {0})
reconcile_expunged server refused account name =
    in_named account name (λ f. delete_dead refused f server.inventory)

unfoldable pub flags_at : ℕ → List (ℕ × FlagState) → Option FlagState
flags_at uid [] = none
flags_at uid ((u, state) ∷ rest) =
    let later = flags_at uid rest in if u == uid then some state else later

abbrev pub same_flags : FlagState → FlagState → Bool
same_flags a b =
    eq_bytes a.flags b.flags && eq_bool a.is_read b.is_read && eq_bool a.is_flagged b.is_flagged

abbrev pub flags_of : Buffer → FlagState
flags_of buf = record {
  flags = join_flags buf.flags;
  is_read = has_flag buf.flags seen;
  is_flagged = has_flag buf.flags flagged;
}

-- a message that is cached with other flags
abbrev pub differs : Option FlagState → FlagState → Bool
differs none next = false
differs (some prev) next = not (same_flags prev next)

module _ (refuses : ℕ → Bool) (folder : ℕ) where
  unfoldable pub refresh_turns :
      List (ℕ × FlagState) → ℕ → List Buffer → Exec Sync SyncError (Unit {0})
  refresh_turns known turn [] s = pure tt s
  refresh_turns known turn (buf ∷ bufs) s =
      let rest = refresh_turns known (turn + 1) bufs in
      if differs (flags_at buf.uid known) (flags_of buf)
      then if refuses turn
        then raise store_failed s
        else rest (record s {
          db = update_message_flags folder buf.uid (flags_of buf) s.db;
          flag_changes = s.flag_changes ++ (buf.uid, join_flags buf.flags) ∷ [];
        })
      else rest s

unfoldable pub max_modseq : ℕ → List Buffer → ℕ
max_modseq modseq [] = modseq
max_modseq modseq (buf ∷ bufs) = max_modseq (max modseq buf.modseq) bufs

abbrev pub uses_condstore : Server → Folder → Bool
uses_condstore server f = server.condstore && ltb 0 f.highest_modseq

unfoldable pub advance : Server → Bool → Folder → ℕ → Exec Sync SyncError (Unit {0})
advance server state_fails f modseq s =
    if uses_condstore server f && not (modseq == f.highest_modseq)
    then if state_fails
      then raise store_failed s
      else pure tt (record s { db = set_folder_sync_state f.id f.uid_validity modseq s.db })
    else pure tt s

abbrev pub refresh_with :
    Server → Faults → Folder → Option (List Buffer) → Exec Sync SyncError (Unit {0})
refresh_with server faults f none s = raise fetch_failed s
refresh_with server faults f (some bufs) s =
    (refresh_turns faults.refuses f.id (folder_flags f.id s.db.messages) 0 bufs
        >> advance server faults.state_fails f (max_modseq f.highest_modseq bufs))
      s

abbrev pub since : Server → Folder → ℕ
since server f = if uses_condstore server f then f.highest_modseq else 0

unfoldable pub refresh_flags : Server → Faults → ℕ → Bytes → Exec Sync SyncError (Unit {0})
refresh_flags server faults account name =
    in_named account name (λ f. refresh_with server faults f (server.changed (since server f)))

-- the folder is still selected: its stored anchors take the place of the server's answer
unfoldable pub delta_sync : Library → Server → Faults → ℕ → Bytes → Exec Sync SyncError (Unit {0})
delta_sync lib server faults account name = in_named account name (λ f.
    sync_folder lib server faults account f (record {
      uid_validity = f.uid_validity;
      highest_modseq = f.highest_modseq;
      num_messages = 1;
    }))

unfoldable pub handle_notification :
    Library → Server → Faults → ℕ → Bytes → Notification → Exec Sync SyncError (Unit {0})
handle_notification lib server faults account name n =
    if not (n.expunged_seq == 0)
    then reconcile_expunged server (faults.refuses 0) account name
    else if n.flags_changed
    then refresh_flags server faults account name
    else delta_sync lib server faults account name
