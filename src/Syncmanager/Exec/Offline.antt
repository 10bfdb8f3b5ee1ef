-- ===== src/Syncmanager/Exec/Offline.antt =====
-- internal/syncmanager/exec.go, execDelete: the row is hidden before the connection is made.
use vayu_mail_mobile.Base.{ℕ, ◌≡◌, refl, ap, ◌∙◌, true, false, Option, none, some, ◌==◌, err}
use vayu_mail_mobile.Syncmanager.Exec.{
  Row, Folder, expunged, World, dial_error, Client, Conn, unreachable, dialled, with_command_conn,
  find_row, get_message, has_account, update_row, folder_of, delete_closure, expunge, delete_from,
  exec_delete,
}
use vayu_mail_mobile.Syncmanager.Exec.Lossless.{find-update, find_id}

from_trash :
    (conn : Conn) (msg : Row) (current : Folder) (o : Option Folder) (w : World)
    → current.is_trash ≡ true
    → delete_from conn msg current o w ≡ expunge conn msg current.full_name w
from_trash conn msg current none w t = refl
from_trash conn msg current (some trash) w t = rw t refl

-- the message stands in the trash of an account that is there
abbrev pub InTrash : ℕ → Row → Folder → World → Type 0
InTrash id r f w =
    (find_row id w.rows ≡ some r)
    × (folder_of r.account (λ g. g.id == r.folder) w ≡ some f)
    × (f.is_trash ≡ true)
    × (has_account r.account w.accounts ≡ true)

module _ (id : ℕ) (r : Row) (f : Folder) (w : World) (h : InTrash id r f w) where
  abbrev hidden : World
  hidden = record w { rows = update_row r.id (λ x. record x { is_deleted = true }) w.rows }

  exec_delete-expunge : (conn : Conn) → exec_delete conn id w ≡ expunge conn r f.full_name w
  unfolding exec_delete get_message
  exec_delete-expunge conn =
      let (at, in_folder, trash, there) = h in
      rw at (rw in_folder (from_trash conn r f (folder_of r.account (λ g. g.is_trash) w) w trash))

  row_again : find_row r.id w.rows ≡ some r
  row_again =
      let (at, in_folder, trash, there) = h in
      ap (λ i. find_row i w.rows) (find_id id w.rows r at) ∙ at

  expunge-hidden :
      (conn : Conn)
      → expunge conn r f.full_name w ≡ with_command_conn conn (delete_closure r f.full_name) hidden
  unfolding get_message
  expunge-hidden conn = let (at, in_folder, trash, there) = h in rw there (rw row_again refl)

  hidden_row : find_row r.id hidden.rows ≡ some (record r { is_deleted = true })
  hidden_row = find-update r.id (λ x. record x { is_deleted = true }) w.rows r (λ x. refl) row_again

  refused_row :
      (c : Client)
      → c.carries (expunged f.full_name r.uid) ≡ false
      → find_row r.id (exec_delete (dialled c) id w).1.rows ≡ some (record r { is_deleted = false })
  unfolding with_command_conn get_message
  refused_row c refused = rw (exec_delete-expunge (dialled c)) (
      rw (expunge-hidden (dialled c)) (
        rw refused (
          rw hidden_row (
            find-update r.id (λ x. record x { is_deleted = false }) hidden.rows
              (record r { is_deleted = true }) (λ x. refl) hidden_row))))

  -- A message in the trash is deleted. If no connection can be made, the command fails, the server has done
  -- nothing, and the row stays hidden, marked as deleted; if a new connection is made and the server
  -- refuses, the mark is taken back.
  pub delete_without_connection :
      (c : Client)
      → c.carries (expunged f.full_name r.uid) ≡ false
      → ((exec_delete unreachable id w).0 ≡ err dial_error)
        × ((exec_delete unreachable id w).1.done ≡ w.done)
        × (find_row r.id (exec_delete unreachable id w).1.rows
            ≡ some (record r { is_deleted = true }))
        × (find_row r.id (exec_delete (dialled c) id w).1.rows
            ≡ some (record r { is_deleted = false }))
  unfolding with_command_conn
  delete_without_connection c refused =
      let offline : exec_delete unreachable id w ≡ (err dial_error, hidden) =
        exec_delete-expunge unreachable ∙ expunge-hidden unreachable in
      (
        ap (λ x. x.0) offline,
        ap (λ x. x.1.done) offline,
        ap (λ x. find_row r.id x.1.rows) offline ∙ hidden_row,
        refused_row c refused,
      )
