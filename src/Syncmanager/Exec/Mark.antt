-- ===== src/Syncmanager/Exec/Mark.antt =====
-- internal/syncmanager/exec.go, execMark: a flag is set in the cache first, and then on the server.
use vayu_mail_mobile.Base.{
  ℕ, ◌≡◌, refl, sym, ap, ◌∙◌, ◌⊎◌, Bool, true, false, inl, inr, Option, none, some, List, [], ◌∷◌,
  ◌++◌, map, Bytes, codes, lower, eq_bytes, ◌==◌, if◌then◌else◌, ok, err, ◌>>=◌, ◌>>◌, pure,
  Bool-cases,
}
use vayu_mail_mobile.Syncmanager.Exec.{
  Row, Folder, ServerOp, flagged, World, ExecError, dial_error, imap_error, Conn, Op, unreachable,
  dialled, pooled, with_command_conn, find_row, get_message, get_account, has_account, update_row,
  set_message_bool, on_server, folder_of,
}
use vayu_mail_mobile.Syncmanager.Exec.Lossless.{find-update, find_id}

abbrev is_seen : Bytes → Bool
is_seen flag = eq_bytes (map lower flag) (codes "\\seen")

abbrev pub is_flagged : Bytes → Bool
is_flagged flag = eq_bytes (map lower flag) (codes "\\flagged")

abbrev set_read : ℕ → Bool → Op (Unit {0})
set_read id v = set_message_bool id (λ r. record r { is_read = v })

abbrev set_flagged : ℕ → Bool → Op (Unit {0})
set_flagged id v = set_message_bool id (λ r. record r { is_flagged = v })

-- the switch: other flags are not kept in the cache
unfoldable pub mark_local : Row → Bytes → Bool → Op (Unit {0})
unfolding get_message
mark_local msg flag set =
    if is_seen flag
    then set_read msg.id set
    else if is_flagged flag
    then set_flagged msg.id set
    else pure tt

-- the name that the loop leaves: empty where no folder has the id
abbrev name_of : Option Folder → Bytes
name_of none = []
name_of (some f) = f.full_name

abbrev mark_op : Row → Bytes → Bool → World → ServerOp
mark_op msg flag set w =
    flagged (name_of (folder_of msg.account (λ f. f.id == msg.folder) w)) msg.uid flag set

abbrev mark_remote : Conn → Row → Bytes → Bool → Op (Unit {0})
mark_remote conn msg flag set w =
    with_command_conn conn (λ c. on_server c (mark_op msg flag set w)) w

abbrev mark_message : Conn → Bytes → Bool → Row → Op (Unit {0})
mark_message conn flag set msg =
    mark_local msg flag set >> (get_account msg.account >> mark_remote conn msg flag set)

unfoldable pub exec_mark : Conn → ℕ → Bytes → Bool → Op (Unit {0})
unfolding get_message with_command_conn mark_local
exec_mark conn id flag set = get_message id >>= mark_message conn flag set

-- one operation over the connections that are tried: it is carried out once, or not at all
on_conn :
    (conn : Conn) (op : ServerOp) (w : World)
    → (with_command_conn conn (λ c. on_server c op) w
        ≡ (ok tt, record w { done = w.done ++ op ∷ [] }))
      ⊎ ((e : ExecError) × (with_command_conn conn (λ c. on_server c op) w ≡ (err e, w)))
unfolding with_command_conn
on_conn unreachable op w = inr (dial_error, refl)
on_conn (dialled c) op w = elim (Bool-cases (c.carries op)) [
  | inl carried ↦ rw carried (inl refl)
  | inr refused ↦ rw refused (inr (imap_error, refl))
]
on_conn (pooled c rest) op w = elim (Bool-cases (c.carries op)) [
  | inl carried ↦ rw carried (inl refl)
  | inr refused ↦ rw refused (on_conn rest op w)
]

abbrev with_bits : (seen starred : Bool) → Bool → Row → Row
with_bits true starred set r = record r { is_read = set }
with_bits false true set r = record r { is_flagged = set }
with_bits false false set r = r

-- the row as the cache shows it
abbrev with_flag : Bytes → Bool → Row → Row
with_flag flag set r = with_bits (is_seen flag) (is_flagged flag) set r

id-with_bits : (seen starred set : Bool) (r : Row) → (with_bits seen starred set r).id ≡ r.id
id-with_bits true starred set r = refl
id-with_bits false true set r = refl
id-with_bits false false set r = refl

update_same : (id : ℕ) (rows : List Row) → update_row id (λ r. r) rows ≡ rows
unfolding update_row
update_same id [] = refl
update_same id (r ∷ rows) = elim (Bool-cases (r.id == id)) [
  | inl same ↦ rw same (ap (λ t. r ∷ t) (update_same id rows))
  | inr other ↦ rw other (ap (λ t. r ∷ t) (update_same id rows))
]

module _ (id : ℕ) (r : Row) (flag : Bytes) (set : Bool) (w : World) where
  abbrev pub marked : World
  marked = record w { rows = update_row r.id (with_flag flag set) w.rows }

  -- the branches of the switch, by the two tests
  local_by :
      (seen starred : Bool)
      → find_row r.id w.rows ≡ some r
      → (if seen then set_read r.id set else if starred then set_flagged r.id set else pure tt) w
        ≡ (ok tt, record w { rows = update_row r.id (with_bits seen starred set) w.rows })
  unfolding get_message
  local_by true starred at = rw at refl
  local_by false true at = rw at refl
  local_by false false at =
      ap (λ rows. (ok tt, record w { rows = rows })) (sym (update_same r.id w.rows))

  mark_local-marked : find_row r.id w.rows ≡ some r → mark_local r flag set w ≡ (ok tt, marked)
  unfolding mark_local
  mark_local-marked at = local_by (is_seen flag) (is_flagged flag) at

  module _ (at : find_row id w.rows ≡ some r)
      (there : has_account r.account w.accounts ≡ true) where
    row_again : find_row r.id w.rows ≡ some r
    row_again = ap (λ i. find_row i w.rows) (find_id id w.rows r at) ∙ at

    exec_mark-remote :
        (conn : Conn) → exec_mark conn id flag set w ≡ mark_remote conn r flag set marked
    unfolding exec_mark get_message
    exec_mark-remote conn = rw at (rw (mark_local-marked row_again) (rw there refl))

    -- A flag of a cached message, of an account that is there, is set or taken off. Whatever connections are
    -- found, the row of the cache has the new value of the flag, and no other row is changed; and either the
    -- command succeeds, and the server has carried out this one change, or it fails, and the server has
    -- carried out nothing while the row keeps the new value.
    exec_mark-marked :
        (conn : Conn)
        → (find_row r.id marked.rows ≡ some (with_flag flag set r))
          × ((exec_mark conn id flag set w
                ≡ (ok tt, record marked { done = w.done ++ mark_op r flag set w ∷ [] }))
              ⊎ ((e : ExecError) × (exec_mark conn id flag set w ≡ (err e, marked))))
    exec_mark-marked conn = (
      find-update r.id (with_flag flag set) w.rows r
          (id-with_bits (is_seen flag) (is_flagged flag) set) row_again,
      rw (exec_mark-remote conn) (on_conn conn (mark_op r flag set w) marked),
    )
