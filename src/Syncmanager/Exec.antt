-- ===== src/Syncmanager/Exec.antt =====
-- internal/syncmanager/exec.go: the commands that move, delete and mark a message. The rows of the cache
-- are local; `done` lists what the IMAP server has carried out, the first first. The SQL engine takes each
-- statement.
pub mod Parts
pub mod Lossless
pub mod Offline
pub mod Mark
use vayu_mail_mobile.Base.{
  ℕ, Bool, true, false, not, ◌&&◌, ◌||◌, Option, none, some, List, [], ◌∷◌, ◌++◌, map, keep, Bytes,
  codes, eq_bytes, lower, ◌==◌, if◌then◌else◌, Exec, Result, ok, err, ◌>>=◌, ◌>>◌, pure, raise,
}

pub record Row : Type 0 where
  pub id : ℕ
  pub account : ℕ
  pub folder : ℕ
  pub uid : ℕ
  pub is_read : Bool
  pub is_flagged : Bool
  pub is_deleted : Bool

pub record Folder : Type 0 where
  pub id : ℕ
  pub account : ℕ
  pub full_name : Bytes
  pub is_trash : Bool

pub data ServerOp : Type 0 where
  moved : (folder : Bytes) (uid : ℕ) (dest : Bytes) → ServerOp
  expunged : (folder : Bytes) (uid : ℕ) → ServerOp
  flagged : (folder : Bytes) (uid : ℕ) (flag : Bytes) (set : Bool) → ServerOp

pub record World : Type 0 where
  pub rows : List Row
  pub folders : List Folder
  pub accounts : List ℕ
  pub done : List ServerOp

pub data ExecError : Type 0 where
  not_found unknown_folder dial_error imap_error : ExecError

-- one connection: whether it carries out an operation, and what selecting and syncing a folder makes of the
-- rows, with whether it succeeds
pub record Client : Type 0 where
  pub carries : ServerOp → Bool
  pub synced : Folder → List Row → Bool × List Row

-- what withCommandConn finds: neither a pooled connection nor a new one, a new one, or a pooled one and
-- what it finds after that has failed
pub data Conn : Type 0 where
  unreachable : Conn
  dialled : Client → Conn
  pooled : Client → Conn → Conn

abbrev pub Op : Type 0 → Type 0
Op A = Exec World ExecError A

abbrev pub retry :
    Result ExecError (Unit {0}) × World → Op (Unit {0}) → Result ExecError (Unit {0}) × World
retry (ok u, w) again = (ok u, w)
retry (err e, w) again = again w

unfoldable pub with_command_conn : Conn → (Client → Op (Unit {0})) → Op (Unit {0})
with_command_conn unreachable f w = (err dial_error, w)
with_command_conn (dialled c) f w = f c w
with_command_conn (pooled c rest) f w = retry (f c w) (with_command_conn rest f)

unfoldable pub find_row : ℕ → List Row → Option Row
find_row id [] = none
find_row id (r ∷ rs) = let rest = find_row id rs in if r.id == id then some r else rest

abbrev pub found : {A : Type 0} → ExecError → Option A → Op A
found e none = raise e
found e (some a) = pure a

unfoldable pub get_message : ℕ → Op Row
unfolding find_row
get_message id w = found not_found (find_row id w.rows) w

unfoldable pub has_account : ℕ → List ℕ → Bool
has_account id [] = false
has_account id (a ∷ rest) = a == id || has_account id rest

abbrev pub get_account : ℕ → Op (Unit {0})
get_account id w = if has_account id w.accounts then (ok tt, w) else (err not_found, w)

unfoldable pub update_row : ℕ → (Row → Row) → List Row → List Row
update_row id f [] = []
update_row id f (r ∷ rs) = (if r.id == id then f r else r) ∷ update_row id f rs

-- setMessageBool, and DeleteLocalMessage: no row is ErrNotFound
abbrev pub set_message_bool : ℕ → (Row → Row) → Op (Unit {0})
set_message_bool id f =
    get_message id >>= λ r w. (ok tt, record w { rows = update_row id f w.rows })

abbrev pub set_deleted : ℕ → Bool → Op (Unit {0})
set_deleted id v = set_message_bool id (λ r. record r { is_deleted = v })

abbrev pub delete_local_message : ℕ → Op (Unit {0})
delete_local_message id =
    get_message id >>= λ r w. (ok tt, record w { rows = keep (λ r. not (r.id == id)) w.rows })

-- an operation of imapsync
abbrev pub on_server : Client → ServerOp → Op (Unit {0})
on_server c op w =
    if c.carries op then (ok tt, record w { done = w.done ++ op ∷ [] }) else (err imap_error, w)

-- the last folder of the account that passes a test, as the loops find it
unfoldable pub last_folder : (Folder → Bool) → List Folder → Option Folder
last_folder p [] = none
last_folder p (f ∷ fs) = elim (last_folder p fs) [
  | some g ↦ some g
  | none ↦ if p f then some f else none
]

abbrev pub folder_of : ℕ → (Folder → Bool) → World → Option Folder
folder_of account p w = last_folder (λ f. f.account == account && p f) w.folders

abbrev pub highest_is_zero : ℕ → List Row → Bool
highest_is_zero folder [] = true
highest_is_zero folder (r ∷ rs) =
    (not (r.folder == folder) || r.uid == 0) && highest_is_zero folder rs

abbrev pub take_rows : Bool × List Row → Op (Unit {0})
take_rows (false, rows) w = (err imap_error, record w { rows = rows })
take_rows (true, rows) w = (ok tt, record w { rows = rows })

-- the moved message is pulled in where the folder is cached
abbrev pub pull_in : Client → Folder → Op (Unit {0})
pull_in c dest w =
    if highest_is_zero dest.id w.rows then (ok tt, w) else take_rows (c.synced dest w.rows) w

abbrev pub move_closure : Row → Bytes → Folder → Client → Op (Unit {0})
move_closure msg src dest c =
    on_server c (moved src msg.uid dest.full_name)
    >> (delete_local_message msg.id >> pull_in c dest)

abbrev pub folder_named : Row → (Folder → Bool) → Op Folder
folder_named msg p w = found unknown_folder (folder_of msg.account p w) w

abbrev pub move_to : Conn → Row → Bytes → Folder → Op (Unit {0})
move_to conn msg dest_name src = folder_named msg (λ f. eq_bytes f.full_name dest_name) >>= λ dest.
    with_command_conn conn (move_closure msg src.full_name dest)

abbrev pub move_message : Conn → Bytes → Row → Op (Unit {0})
move_message conn dest_name msg =
    get_account msg.account
    >> folder_named msg (λ f. f.id == msg.folder)
    >>= move_to conn msg dest_name

unfoldable pub exec_move : Conn → ℕ → Bytes → Op (Unit {0})
unfolding get_message with_command_conn last_folder
exec_move conn id dest_name = get_message id >>= move_message conn dest_name

abbrev pub restore : ℕ → Result ExecError (Unit {0}) × World → Result ExecError (Unit {0}) × World
restore id (ok u, w) = (ok u, w)
restore id (err e, w) = (err e, (set_deleted id false w).1)

abbrev pub delete_closure : Row → Bytes → Client → Op (Unit {0})
delete_closure msg current c =
    (λ w. restore msg.id (on_server c (expunged current msg.uid) w)) >> delete_local_message msg.id

abbrev pub expunge : Conn → Row → Bytes → Op (Unit {0})
expunge conn msg current =
    get_account msg.account
    >> set_deleted msg.id true
    >> with_command_conn conn (delete_closure msg current)

abbrev pub delete_from : Conn → Row → Folder → Option Folder → Op (Unit {0})
delete_from conn msg current none = expunge conn msg current.full_name
delete_from conn msg current (some trash) =
    if current.is_trash
    then expunge conn msg current.full_name
    else exec_move conn msg.id trash.full_name

abbrev pub delete_message : Conn → Row → Op (Unit {0})
delete_message conn msg = folder_named msg (λ f. f.id == msg.folder) >>= λ current w.
    delete_from conn msg current (folder_of msg.account (λ f. f.is_trash) w) w

unfoldable pub exec_delete : Conn → ℕ → Op (Unit {0})
unfolding exec_move
exec_delete conn id = get_message id >>= delete_message conn
