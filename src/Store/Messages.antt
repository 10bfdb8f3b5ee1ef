-- ===== src/Store/Messages.antt =====
-- internal/store/messages.go, messages_sync.go and folders.go: the tables of messages and folders. A text
-- column that holds NULL is read as an empty text, so both are the empty list; every statement succeeds
-- here, and a caller says when one is refused. `date` is in seconds since 1970.
use vayu_mail_mobile.Base.{
  ℕ, ◌+◌, max, Bool, not, ◌&&◌, Option, none, some, List, [], ◌∷◌, map, keep, Bytes, eq_bytes, ℤ,
  ◌==◌, ltb, if◌then◌else◌,
}

pub record Message : Type 0 where
  pub id : ℕ
  pub account_id : ℕ
  pub folder_id : ℕ
  pub uid : ℕ
  pub thread_id : Bytes
  pub message_id : Bytes
  pub in_reply_to : Bytes
  pub from_addr : Bytes
  pub from_name : Bytes
  pub to_addrs : Bytes
  pub cc_addrs : Bytes
  pub subject : Bytes
  pub snippet : Bytes
  pub body_text : Bytes
  pub body_html : Bytes
  pub has_attachments : Bool
  pub pgp_status : Bytes
  pub is_read : Bool
  pub is_flagged : Bool
  pub is_deleted : Bool
  pub date : ℤ
  pub size_bytes : ℕ
  pub flags : Bytes
  pub has_trackers : Bool
  pub is_list : Bool
  pub list_unsubscribe : Bytes
  pub snooze_until : ℕ
  pub attachments : Bytes

pub record Folder : Type 0 where
  pub id : ℕ
  pub account_id : ℕ
  pub name : Bytes
  pub full_name : Bytes
  pub delimiter : Bytes
  pub uid_validity : ℕ
  pub highest_modseq : ℕ
  pub is_inbox : Bool
  pub is_sent : Bool
  pub is_drafts : Bool
  pub is_trash : Bool
  pub is_archive : Bool

-- the tables; the next ids are above those in use
pub record MailDb : Type 0 where
  pub messages : List Message
  pub folders : List Folder
  pub next_message : ℕ
  pub next_folder : ℕ

-- the unique key of the table
abbrev pub same_key : Message → Message → Bool
same_key r m = r.account_id == m.account_id && r.folder_id == m.folder_id && r.uid == m.uid

abbrev pub unless_empty : Bytes → Bytes → Bytes
unless_empty [] old = old
unless_empty (c ∷ s) old = c ∷ s

-- ON CONFLICT ... DO UPDATE: the column `attachments` is not among those inserted, so
-- excluded.attachments is NULL and the old value stays
unfoldable pub merged : Message → Message → Message
merged r m = record r {
  thread_id = m.thread_id;
  snippet = m.snippet;
  body_text = unless_empty m.body_text r.body_text;
  body_html = unless_empty m.body_html r.body_html;
  has_attachments = m.has_attachments;
  pgp_status = m.pgp_status;
  is_read = m.is_read;
  is_flagged = m.is_flagged;
  is_deleted = m.is_deleted;
  flags = m.flags;
  has_trackers = m.has_trackers;
  is_list = m.is_list;
  list_unsubscribe = m.list_unsubscribe;
}

-- the row of an INSERT: neither `attachments` nor `snooze_until` is among its columns
unfoldable pub inserted : ℕ → Message → Message
inserted fresh m = record m { id = fresh; attachments = []; snooze_until = 0 }

unfoldable pub upsert_row : ℕ → Message → List Message → List Message
upsert_row fresh m [] = inserted fresh m ∷ []
upsert_row fresh m (r ∷ rows) =
    let rest = upsert_row fresh m rows in if same_key r m then merged r m ∷ rows else r ∷ rest

unfoldable pub upsert_message : Message → MailDb → MailDb
upsert_message m db = record db {
  messages = upsert_row db.next_message m db.messages;
  next_message = db.next_message + 1;
}

abbrev pub in_folder : ℕ → Message → Bool
in_folder folder r = r.folder_id == folder

-- SELECT COALESCE(MAX(uid),0)
unfoldable pub highest_uid : ℕ → List Message → ℕ
highest_uid folder [] = 0
highest_uid folder (r ∷ rows) =
    let rest = highest_uid folder rows in if in_folder folder r then max r.uid rest else rest

unfoldable pub clear_folder_messages : ℕ → MailDb → MailDb
clear_folder_messages folder db = record db {
  messages = keep (λ r. not (in_folder folder r)) db.messages;
}

unfoldable pub delete_message_by_uid : ℕ → ℕ → MailDb → MailDb
delete_message_by_uid folder uid db = record db {
  messages = keep (λ r. not (in_folder folder r && r.uid == uid)) db.messages;
}

unfoldable pub get_message_by_uid : ℕ → ℕ → List Message → Option Message
get_message_by_uid folder uid [] = none
get_message_by_uid folder uid (r ∷ rows) =
    let rest = get_message_by_uid folder uid rows in
    if in_folder folder r && r.uid == uid then some r else rest

pub record FlagState : Type 0 where
  pub flags : Bytes
  pub is_read : Bool
  pub is_flagged : Bool

-- the map of FolderFlags, a list of pairs
unfoldable pub folder_flags : ℕ → List Message → List (ℕ × FlagState)
folder_flags folder [] = []
folder_flags folder (r ∷ rows) =
    let rest = folder_flags folder rows in
    if in_folder folder r
    then (r.uid, record { flags = r.flags; is_read = r.is_read; is_flagged = r.is_flagged }) ∷ rest
    else rest

unfoldable pub update_message_flags : ℕ → ℕ → FlagState → MailDb → MailDb
update_message_flags folder uid next db = record db {
  messages =
      map
        (λ r.
          if in_folder folder r && r.uid == uid
          then record r { flags = next.flags; is_read = next.is_read; is_flagged = next.is_flagged }
          else r)
        db.messages;
}

-- the rows of the folder with a UID above zero that is not live, by their ids
unfoldable pub stale_ids : ℕ → (ℕ → Bool) → List Message → List ℕ
stale_ids folder live [] = []
stale_ids folder live (r ∷ rows) =
    let rest = stale_ids folder live rows in
    if (in_folder folder r && ltb 0 r.uid) && not (live r.uid) then r.id ∷ rest else rest

unfoldable pub delete_ids : List ℕ → List Message → List Message
delete_ids [] rows = rows
delete_ids (id ∷ ids) rows = delete_ids ids (keep (λ r. not (r.id == id)) rows)

unfoldable pub delete_messages_not_in : ℕ → (ℕ → Bool) → MailDb → MailDb
delete_messages_not_in folder live db = record db {
  messages = delete_ids (stale_ids folder live db.messages) db.messages;
}

unfoldable pub get_folder_by_full_name : ℕ → Bytes → List Folder → Option Folder
get_folder_by_full_name account name [] = none
get_folder_by_full_name account name (f ∷ folders) =
    let rest = get_folder_by_full_name account name folders in
    if f.account_id == account && eq_bytes f.full_name name then some f else rest

unfoldable pub set_folder_sync_state : ℕ → ℕ → ℕ → MailDb → MailDb
set_folder_sync_state folder validity modseq db = record db {
  folders =
      map
        (λ f.
          if f.id == folder
          then record f { uid_validity = validity; highest_modseq = modseq }
          else f)
        db.folders;
}

unfoldable pub upsert_folder_row : ℕ → Folder → List Folder → List Folder
upsert_folder_row fresh f [] = record f { id = fresh } ∷ []
upsert_folder_row fresh f (g ∷ folders) =
    let rest = upsert_folder_row fresh f folders in
    if g.account_id == f.account_id && eq_bytes g.full_name f.full_name
    then record g {
      name = f.name;
      delimiter = f.delimiter;
      is_inbox = f.is_inbox;
      is_sent = f.is_sent;
      is_drafts = f.is_drafts;
      is_trash = f.is_trash;
      is_archive = f.is_archive;
    }
      ∷ folders
    else g ∷ rest

unfoldable pub upsert_folder : Folder → MailDb → MailDb
upsert_folder f db = record db {
  folders = upsert_folder_row db.next_folder f db.folders;
  next_folder = db.next_folder + 1;
}
