-- ===== src/Syncmanager/ExecTests.antt =====
-- The commands on messages at concrete inputs.
use vayu_mail_mobile.Base.{
  Memᴰ, none, ◌++◌, ok, eq_bytes, lower, ◌≡◌, refl, true, false, some, [], ◌∷◌, codes, err,
}
use vayu_mail_mobile.Syncmanager.Exec.{
  Row, Folder, World, Client, unreachable, dialled, pooled, dial_error, find_row, last_folder,
  has_account, update_row, get_message, with_command_conn, imap_error, exec_delete, exec_move,
}
use vayu_mail_mobile.Syncmanager.Exec.Parts.{Kept}
use vayu_mail_mobile.Syncmanager.Exec.Lossless.{delete_move-Kept}
use vayu_mail_mobile.Syncmanager.Exec.Mark.{exec_mark, mark_local}
use vayu_mail_mobile.Store.Db.{OutboxEntry, not_found}
use vayu_mail_mobile.Store.Outbox.{new_entry, find_entry}
use vayu_mail_mobile.Smtpsend.Outbox.{World as Pass, Run, store_error, process_entries}
use vayu_mail_mobile.Smtpsend.Outbox.Pass.{reports_of}
use vayu_mail_mobile.Syncmanager.Send.{exec_send, of_store}
use vayu_mail_mobile.Syncmanager.Send.Twice.{sent, sent_twice}
use vayu_mail_mobile.Syncmanager.Exec.Offline.{delete_without_connection}

abbrev letter : Row
letter = record {
  id = 5;
  account = 1;
  folder = 2;
  uid = 9;
  is_read = true;
  is_flagged = false;
  is_deleted = false;
}

abbrev trash : Folder
trash = record { id = 2; account = 1; full_name = codes "Trash"; is_trash = true }

abbrev inbox : Folder
inbox = record { id = 1; account = 1; full_name = codes "INBOX"; is_trash = false }

abbrev mail : World
mail = record { rows = letter ∷ []; folders = inbox ∷ trash ∷ []; accounts = 1 ∷ []; done = [] }

abbrev dead_client : Client
dead_client = record { carries = λ op. false; synced = λ f rows. (false, rows) }

abbrev good_client : Client
good_client = record { carries = λ op. true; synced = λ f rows. (true, rows) }

delete_move-Kept_example :
    Kept 5 letter mail (exec_delete (pooled dead_client (dialled good_client)) 5 mail).1
    × Kept 5 letter mail
        (exec_move (pooled dead_client (dialled good_client)) 5 (codes "INBOX") mail).1
unfolding find_row
delete_move-Kept_example =
    delete_move-Kept (pooled dead_client (dialled good_client)) 5 (codes "INBOX") mail letter refl

delete_without_connection_example :
    ((exec_delete unreachable 5 mail).0 ≡ err dial_error)
    × ((exec_delete unreachable 5 mail).1.done ≡ [])
    × (find_row 5 (exec_delete unreachable 5 mail).1.rows
        ≡ some (record letter { is_deleted = true }))
    × (find_row 5 (exec_delete (dialled dead_client) 5 mail).1.rows
        ≡ some (record letter { is_deleted = false }))
unfolding find_row last_folder has_account
delete_without_connection_example =
    delete_without_connection 5 letter trash mail (refl, refl, refl, refl) dead_client refl

-- the server refuses: the row keeps the mark, and the command fails
mark_refused :
    exec_mark (dialled dead_client) 5 (codes "\\Flagged") true mail
    ≡ (err imap_error, record mail { rows = record letter { is_flagged = true } ∷ [] })
unfolding exec_mark mark_local get_message with_command_conn find_row update_row eq_bytes lower
    has_account
mark_refused = refl

abbrev entry : OutboxEntry
entry = new_entry 4 1 (codes "raw") 90

abbrev pass : Pass
pass = record {
  account = 1;
  started_at = 0;
  outcome = λ e. none;
  stopped = λ e. false;
  failed_at = λ e. 0;
}

abbrev queue : Run
queue = record { db = record { settings = []; outbox = entry ∷ []; faults = [] }; reports = [] }

sent_twice_example :
    (exec_send pass (λ id. true) 4 queue ≡ (ok tt, sent pass (λ id. true) entry queue))
    × ((exec_send pass (λ id. true) 4 (sent pass (λ id. true) entry queue)).0
        ≡ err (of_store (store_error not_found)))
    × ((process_entries pass (entry ∷ []) (sent pass (λ id. true) entry queue)).1.reports
        ≡ [] ++ (4, none) ∷ reports_of pass (entry ∷ []))
    × Memᴰ (4, none) (reports_of pass (entry ∷ []))
unfolding find_entry
sent_twice_example =
    sent_twice pass (λ id. true) entry queue (entry ∷ []) refl refl refl refl refl (Memᴰ.head refl)
      (refl, tt)
