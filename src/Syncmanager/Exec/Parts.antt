-- ===== src/Syncmanager/Exec/Parts.antt =====
-- internal/syncmanager/exec.go: what the parts of the commands keep.
use vayu_mail_mobile.Base.{
  ℕ, ◌≡◌, refl, ap, ◌∙◌, append_assoc, ◌>>=◌, Bool, true, false, not, ◌⊎◌, inl, inr, Option, none,
  some, List, [], ◌∷◌, ◌++◌, keep, Bytes, ◌==◌, Exec, Result, ok, err, Bool-cases, Keeps,
  bind-Keeps, Memᴰ,
}
use vayu_mail_mobile.Syncmanager.Exec.{
  Op, Row, Folder, ServerOp, moved, expunged, World, ExecError, not_found, unknown_folder, Client,
  Conn, unreachable, dialled, pooled, retry, with_command_conn, find_row, found, get_message,
  get_account, has_account, delete_local_message, folder_of, highest_is_zero, take_rows, pull_in,
  folder_named,
}

-- the server has moved or removed the message with that UID in that folder
abbrev pub CarriedFrom : Bytes → ℕ → List ServerOp → Type 0
CarriedFrom folder uid ops =
    ((dest : Bytes) × Memᴰ (moved folder uid dest) ops) ⊎ Memᴰ (expunged folder uid) ops

-- the name that the folder of a row has
abbrev pub IsHome : Row → World → Bytes → Type 0
IsHome row w name =
    (f : Folder) × (folder_of row.account (λ g. g.id == row.folder) w ≡ some f)
    × (f.full_name ≡ name)

-- since the world `start`, the folders are the same, and the server has carried out more operations
abbrev pub Since : World → World → Type 0
Since start w = (w.folders ≡ start.folders) × ((new : List ServerOp) × (w.done ≡ start.done ++ new))

abbrev pub Carried : Row → World → World → Type 0
Carried row start w =
    (w.folders ≡ start.folders)
    × ((new : List ServerOp) × (name : Bytes) × (w.done ≡ start.done ++ new)
        × IsHome row start name
        × CarriedFrom name row.uid new)

-- the cache has a row with that id, for the same message of the server
abbrev pub Cached : ℕ → Row → World → Type 0
Cached id row w =
    (r : Row) × (find_row id w.rows ≡ some r)
    × (r.uid ≡ row.uid)
    × (r.account ≡ row.account)
    × (r.folder ≡ row.folder)

-- the row is there, or since `start` the server has carried its message out of its folder
abbrev pub Kept : ℕ → Row → World → World → Type 0
Kept id row start w = (Cached id row w × Since start w) ⊎ Carried row start w

module _ {A : Type 0} where
  pub last_in : (xs : List A) (x : A) → Memᴰ x (xs ++ x ∷ [])
  last_in [] x = Memᴰ.head refl
  last_in (y ∷ xs) x = Memᴰ.tail (last_in xs x)

  pub still_in : (xs ys : List A) (x : A) → Memᴰ x xs → Memᴰ x (xs ++ ys)
  still_in (y ∷ xs) ys x (Memᴰ.head e) = Memᴰ.head e
  still_in (y ∷ xs) ys x (Memᴰ.tail m) = Memᴰ.tail (still_in xs ys x m)
  still_in [] ys x m = elim m [ ]

in_last : {A : Type 0} (xs ys : List A) (x : A) → Memᴰ x ys → Memᴰ x (xs ++ ys)
in_last [] ys x m = m
in_last (y ∷ xs) ys x m = Memᴰ.tail (in_last xs ys x m)

grown :
    (done old new : List ServerOp) (op : ServerOp)
    → done ≡ old ++ new
    → done ++ op ∷ [] ≡ old ++ (new ++ op ∷ [])
grown done old new op e = ap (λ t. t ++ op ∷ []) e ∙ append_assoc old new (op ∷ [])

pub found-Keeps :
    {A : Type 0} (Good : World → Type 0) (e : ExecError) (o : Option A) → Keeps Good (found e o)
found-Keeps Good e none w k = k
found-Keeps Good e (some a) w k = k

pub get_message-Keeps : (Good : World → Type 0) (id : ℕ) → Keeps Good (get_message id)
unfolding get_message
get_message-Keeps Good id w k = found-Keeps Good not_found (find_row id w.rows) w k

pub get_account-Keeps : (Good : World → Type 0) (id : ℕ) → Keeps Good (get_account id)
get_account-Keeps Good id w k = elim (Bool-cases (has_account id w.accounts)) [
  | inl there ↦ rw there k
  | inr gone ↦ rw gone k
]

pub folder_named-Keeps :
    (Good : World → Type 0) (msg : Row) (p : Folder → Bool) → Keeps Good (folder_named msg p)
folder_named-Keeps Good msg p w k = found-Keeps Good unknown_folder (folder_of msg.account p w) w k

retry-Keeps :
    (Good : World → Type 0) (r : Result ExecError (Unit {0}) × World)
    (again : Exec World ExecError (Unit {0}))
    → Keeps Good again
    → Good r.1
    → Good (retry r again).1
retry-Keeps Good (ok u, w) again h g = g
retry-Keeps Good (err e, w) again h g = h w g

pub conn-Keeps :
    (Good : World → Type 0) (conn : Conn) (f : Client → Exec World ExecError (Unit {0}))
    → ((c : Client) → Keeps Good (f c))
    → Keeps Good (with_command_conn conn f)
unfolding with_command_conn
conn-Keeps Good unreachable f h w g = g
conn-Keeps Good (dialled c) f h w g = h c w g
conn-Keeps Good (pooled c rest) f h w g =
    retry-Keeps Good (f c w) (with_command_conn rest f) (conn-Keeps Good rest f h) (h c w g)

module _ (row : Row) (start : World) where
  take_rows-Carried : (o : Bool × List Row) → Keeps (Carried row start) (take_rows o)
  take_rows-Carried (false, rows) w c = c
  take_rows-Carried (true, rows) w c = c

  pub pull_in-Carried : (c : Client) (dest : Folder) → Keeps (Carried row start) (pull_in c dest)
  pull_in-Carried c dest w k = elim (Bool-cases (highest_is_zero dest.id w.rows)) [
    | inl empty ↦ rw empty k
    | inr cached ↦ rw cached (take_rows-Carried (c.synced dest w.rows) w k)
  ]

  pub delete-Carried : (id : ℕ) → Keeps (Carried row start) (delete_local_message id)
  delete-Carried id =
      bind-Keeps (Carried row start) (get_message id)
        (λ r w. (ok tt, record w { rows = keep (λ r. not (r.id == id)) w.rows }))
        (get_message-Keeps (Carried row start) id) (λ r w c. c)

  pub Carried-append :
      (op : ServerOp) (w : World)
      → Carried row start w
      → Carried row start (record w { done = w.done ++ op ∷ [] })
  Carried-append op w (same, (new, name, e, home, inl (dest, m))) = (
    same,
    (
      new ++ op ∷ [],
      name,
      grown w.done start.done new op e,
      home,
      inl (dest, still_in new (op ∷ []) _ m),
    ),
  )
  Carried-append op w (same, (new, name, e, home, inr m)) = (
    same,
    (
      new ++ op ∷ [],
      name,
      grown w.done start.done new op e,
      home,
      inr (still_in new (op ∷ []) _ m),
    ),
  )

  -- the operation that carries the message away
  pub Carried-now :
      (op : ServerOp) (name : Bytes) (w : World)
      → Since start w
      → IsHome row start name
      → CarriedFrom name row.uid (op ∷ [])
      → Carried row start (record w { done = w.done ++ op ∷ [] })
  Carried-now op name w (same, (new, e)) home (inl (dest, m)) = (
    same,
    (
      new ++ op ∷ [],
      name,
      grown w.done start.done new op e,
      home,
      inl (dest, in_last new (op ∷ []) _ m),
    ),
  )
  Carried-now op name w (same, (new, e)) home (inr m) = (
    same,
    (new ++ op ∷ [], name, grown w.done start.done new op e, home, inr (in_last new (op ∷ []) _ m)),
  )

  -- the folder that the command finds for the row is the one the row had at the start
  folder_of-IsHome :
      (msg : Row) (w : World) (f : Folder)
      → Since start w
      → msg.account ≡ row.account
      → msg.folder ≡ row.folder
      → folder_of msg.account (λ g. g.id == msg.folder) w ≡ some f
      → IsHome row start f.full_name
  folder_of-IsHome msg w f (same, _) a b e = (f, rw⁻¹ (same, a, b) e, refl)

  found_home :
      {A : Type 0} (Good : World → Type 0) (o : Option Folder) (k : Folder → Op A) (w : World)
      → Good w
      → ((f : Folder) → o ≡ some f → Good (k f w).1)
      → Good ((found unknown_folder o >>= k) w).1
  found_home Good none k w g h = g
  found_home Good (some f) k w g h = h f refl

  pub bind_home :
      {A : Type 0} (Good : World → Type 0) (msg : Row) (k : Folder → Op A) (w : World)
      → Good w
      → Since start w
      → msg.account ≡ row.account
      → msg.folder ≡ row.folder
      → ((f : Folder) → IsHome row start f.full_name → Good (k f w).1)
      → Good ((folder_named msg (λ f. f.id == msg.folder) >>= k) w).1
  bind_home Good msg k w g s a b h =
      found_home Good (folder_of msg.account (λ g. g.id == msg.folder) w) k w g
        (λ f e. h f (folder_of-IsHome msg w f s a b e))
