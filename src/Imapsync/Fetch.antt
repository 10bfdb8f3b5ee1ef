-- ===== src/Imapsync/Fetch.antt =====
-- internal/mail/imapsync/fetch.go: SyncFolder, RefetchMessage and FetchBody.
use vayu_mail_mobile.Base.{
  ℕ, ◌+◌, ◌%◌, ◌^◌, Bool, false, not, ◌&&◌, Option, none, some, List, [], ◌∷◌, ◌++◌, Bytes, length,
  leb, ◌==◌, if◌then◌else◌, Exec, pure, raise, ◌>>◌,
}
use vayu_mail_mobile.Store.Messages.{
  Message, Folder, MailDb, upsert_message, highest_uid, clear_folder_messages,
  set_folder_sync_state,
}
use vayu_mail_mobile.Imapsync.{
  max_inline_body_bytes, Buffer, Selected, message_from_buffer, attach_body,
}
use vayu_mail_mobile.Mime.Parse.{Parsed}

pub data SyncError : Type 0 where
  cancelled store_failed fetch_failed not_found : SyncError

-- what the server answers: UID FETCH first:* with envelopes, one body, UID FETCH 1:* with the UIDs, and
-- with the flags changed since a number, where zero asks for all
pub record Server : Type 0 where
  pub envelopes : ℕ → Option (List Buffer)
  pub body : ℕ → Option Bytes
  pub inventory : Option (List ℕ)
  pub changed : ℕ → Option (List Buffer)
  pub condstore : Bool

pub record Library : Type 0 where
  pub strip : Bytes → Bytes
  pub parse : Bytes → Option Parsed
  pub to_json : List (Bytes × Bytes) → Option Bytes

-- what goes wrong: the context is cancelled before a turn of the loop, or the database refuses a statement
pub record Faults : Type 0 where
  pub stopped : ℕ → Bool
  pub refuses : ℕ → Bool
  pub clear_fails : Bool
  pub state_fails : Bool
  pub highest_fails : Bool

-- the database, and what was reported of new messages, of the progress and of changed flags
pub record Sync : Type 0 where
  pub db : MailDb
  pub announced : List (ℕ × ℕ)
  pub progress : List (ℕ × ℕ)
  pub flag_changes : List (ℕ × Bytes)

abbrev pub attach : Library → Message → Option Parsed → Option Message
attach lib msg none = none
attach lib msg (some parsed) = some (attach_body lib.to_json parsed msg)

abbrev pub parse_and_attach : Library → Message → Option Bytes → Option Message
parse_and_attach lib msg none = none
parse_and_attach lib msg (some raw) = attach lib msg (lib.parse raw)

unfoldable pub fetch_and_attach_body : Library → Server → ℕ → Message → Option Message
fetch_and_attach_body lib server uid msg = parse_and_attach lib msg (server.body uid)

abbrev pub or_envelope_only : Message → Option Message → Message
or_envelope_only msg none = record msg { snippet = [] }
or_envelope_only msg (some full) = full

unfoldable pub message_of : Library → Server → ℕ → ℕ → Buffer → Message
message_of lib server account folder buf =
    let msg = message_from_buffer lib.strip account folder buf in
    if leb buf.size max_inline_body_bytes
    then or_envelope_only msg (fetch_and_attach_body lib server buf.uid msg)
    else msg

-- a new UIDVALIDITY invalidates every cached UID
abbrev pub is_new : ℕ → Selected → Bool
is_new validity selected = not (validity == 0) && not (selected.uid_validity == validity)

module _ (lib : Library) (server : Server) (faults : Faults) (account folder : ℕ) where
  unfoldable pub store_buffer : Buffer → ℕ → ℕ → Sync → Sync
  store_buffer buf done total s = record s {
    db = upsert_message (message_of lib server account folder buf) s.db;
    announced = s.announced ++ (folder, buf.uid) ∷ [];
    progress = s.progress ++ (done + 1, total) ∷ [];
  }

  unfoldable pub sync_turns : ℕ → ℕ → ℕ → List Buffer → Exec Sync SyncError (Unit {0})
  sync_turns highest total done [] s = pure tt s
  sync_turns highest total done (buf ∷ bufs) s =
      let rest = sync_turns highest total (done + 1) bufs in
      if faults.stopped done
      then raise cancelled s
      else if leb buf.uid highest
      then rest s
      else if faults.refuses done
      then raise store_failed s
      else rest (store_buffer buf done total s)

  abbrev pub with_envelopes : ℕ → Option (List Buffer) → Exec Sync SyncError (Unit {0})
  with_envelopes highest none = raise fetch_failed
  with_envelopes highest (some bufs) = sync_turns highest (length bufs) 0 bufs

  -- from the query of the highest UID on
  unfoldable pub fetch_new : ℕ → Exec Sync SyncError (Unit {0})
  fetch_new num_messages s =
      let highest = highest_uid folder s.db.messages in
      if faults.highest_fails
      then raise store_failed s
      else if num_messages == 0
      then pure tt s
      else with_envelopes highest (server.envelopes ((highest + 1) % 2 ^ 32)) s

  unfoldable pub set_state : Selected → Exec Sync SyncError (Unit {0})
  set_state selected s =
      if faults.state_fails
      then raise store_failed s
      else pure tt (record s {
        db = set_folder_sync_state folder selected.uid_validity selected.highest_modseq s.db;
      })

  unfoldable pub clear_if_new : ℕ → Selected → Exec Sync SyncError (Unit {0})
  clear_if_new validity selected s =
      if is_new validity selected
      then if faults.clear_fails
        then raise store_failed s
        else pure tt (record s { db = clear_folder_messages folder s.db })
      else pure tt s

unfoldable pub sync_folder :
    Library → Server → Faults → ℕ → Folder → Selected → Exec Sync SyncError (Unit {0})
sync_folder lib server faults account folder selected =
    clear_if_new lib server faults account folder.id folder.uid_validity selected
    >> (set_state lib server faults account folder.id selected
        >> fetch_new lib server faults account folder.id selected.num_messages)

abbrev pub save_full : Option Message → (refused stopped : Bool) → Exec MailDb SyncError (Unit {0})
save_full none refused stopped db = raise fetch_failed db
save_full (some msg) refused stopped db =
    if refused
    then raise store_failed db
    else if stopped
    then raise cancelled (upsert_message msg db)
    else pure tt (upsert_message msg db)

-- the message is stored also when the context is cancelled meanwhile
unfoldable pub fetch_body :
    Library → Server → (refused stopped : Bool) → Message → Exec MailDb SyncError (Unit {0})
fetch_body lib server refused stopped msg =
    save_full (fetch_and_attach_body lib server msg.uid msg) refused stopped

-- the folder is selected first, which may fail
unfoldable pub refetch_message :
    Library → Server → (selected refused : Bool) → Message → Exec MailDb SyncError (Unit {0})
refetch_message lib server selected refused msg db =
    if selected
    then save_full (fetch_and_attach_body lib server msg.uid msg) refused false db
    else raise fetch_failed db
