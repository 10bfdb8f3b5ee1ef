-- ===== src/Syncmanager/Exec/Lossless.antt =====
-- internal/syncmanager/exec.go: a message leaves the cache only after the server has carried out its move or
-- its removal.
use vayu_mail_mobile.Base.{
  ℕ, ◌≡◌, refl, sym, append-nil, Memᴰ, Bool, true, false, inl, inr, Option, none, some, List, [],
  ◌∷◌, ◌++◌, Bytes, eq_bytes, ◌∙◌, ap, ◌==◌, ==_iff, ok, ◌>>◌, Bool-cases, Keeps, bind-Keeps,
}
use vayu_mail_mobile.Syncmanager.Exec.{
  has_account, Row, Folder, ServerOp, moved, expunged, World, Client, Conn, with_command_conn,
  find_row, get_message, get_account, update_row, set_deleted, delete_local_message, on_server,
  folder_of, pull_in, move_closure, folder_named, move_to, move_message, exec_move, delete_message,
  delete_closure, expunge, delete_from, exec_delete,
}
use vayu_mail_mobile.Syncmanager.Exec.Parts.{
  IsHome, Since, Carried-append, Carried-now, bind_home, Carried, Kept, get_message-Keeps,
  get_account-Keeps, folder_named-Keeps, conn-Keeps, pull_in-Carried, delete-Carried,
}

module _ (id : ℕ) where
  pub find_id : (rs : List Row) (r : Row) → find_row id rs ≡ some r → r.id ≡ id
  unfolding find_row
  find_id [] r e = cc
  find_id (x ∷ rs) r e = elim (Bool-cases (x.id == id)) [
    | inl same ↦
        let f : some x ≡ some r = rw same at e in
        let g : x ≡ r = cc in sym (ap (λ y. y.id) g) ∙ (==_iff x.id id).0 same
    | inr other ↦ find_id rs r (rw other at e)
  ]

  pub find-update :
      (f : Row → Row) (rs : List Row) (r : Row)
      → ((x : Row) → (f x).id ≡ x.id)
      → find_row id rs ≡ some r
      → find_row id (update_row id f rs) ≡ some (f r)
  unfolding find_row update_row
  find-update f [] r h e = cc
  find-update f (x ∷ rs) r h e = elim (Bool-cases (x.id == id)) [
    | inl same ↦
        let g : some x ≡ some r = rw same at e in
        let k : x ≡ r = cc in
        let kept : ((f x).id == id) ≡ true = ap (λ t. t == id) (h x) ∙ same in
        rw same (rw kept (ap (λ y. some (f y)) k))
    | inr other ↦ rw other (rw other (find-update f rs r h (rw other at e)))
  ]

module _ (id : ℕ) (row : Row) (start : World) where
  abbrev CarriedIn : World → Type 0
  CarriedIn = Carried row start

  abbrev KeptIn : World → Type 0
  KeptIn = Kept id row start

  set_deleted-Kept : (v : Bool) → Keeps KeptIn (set_deleted id v)
  unfolding get_message
  set_deleted-Kept v w (inl ((r, e, u, a, f), since)) = rw e (
      inl (
        (
          record r { is_deleted = v },
          find-update id (λ r. record r { is_deleted = v }) w.rows r (λ x. refl) e,
          u,
          a,
          f,
        ),
        since,
      ))
  set_deleted-Kept v w (inr c) = inr (
      bind-Keeps CarriedIn (get_message id)
        (λ r w.
          (ok tt, record w { rows = update_row id (λ r. record r { is_deleted = v }) w.rows }))
        (get_message-Keeps CarriedIn id) (λ r w c. c) w c)

  on_server-Carried : (c : Client) (op : ServerOp) → Keeps CarriedIn (on_server c op)
  on_server-Carried c op w k = elim (Bool-cases (c.carries op)) [
    | inl carried ↦ rw carried (Carried-append row start op w k)
    | inr refused ↦ rw refused k
  ]

  move_closure-Carried :
      (msg : Row) (src : Bytes) (dest : Folder) (c : Client)
      → Keeps CarriedIn (move_closure msg src dest c)
  move_closure-Carried msg src dest c =
      bind-Keeps CarriedIn (on_server c (moved src msg.uid dest.full_name))
        (λ _. delete_local_message msg.id >> pull_in c dest)
        (on_server-Carried c (moved src msg.uid dest.full_name))
        (λ _.
          bind-Keeps CarriedIn (delete_local_message msg.id) (λ _. pull_in c dest)
            (delete-Carried row start msg.id) (λ _. pull_in-Carried row start c dest))

  move_closure-Kept :
      (msg : Row) (src : Bytes) (dest : Folder) (c : Client)
      → msg.uid ≡ row.uid
      → IsHome row start src
      → Keeps KeptIn (move_closure msg src dest c)
  move_closure-Kept msg src dest c e home w (inr k) = inr (move_closure-Carried msg src dest c w k)
  move_closure-Kept msg src dest c e home w (inl (cached, since)) =
      let op = moved src msg.uid dest.full_name in
      elim (Bool-cases (c.carries op)) [
        | inl carried ↦ rw carried (
            inr (
              bind-Keeps CarriedIn (delete_local_message msg.id) (λ _. pull_in c dest)
                (delete-Carried row start msg.id) (λ _. pull_in-Carried row start c dest)
                (record w { done = w.done ++ op ∷ [] })
                (Carried-now row start op src w since home (
                  inl (dest.full_name, Memᴰ.head (ap (λ u. moved src u dest.full_name) (sym e)))))))
        | inr refused ↦ rw refused (inl (cached, since))
      ]

  delete_closure-Kept :
      (msg : Row) (current : Bytes) (c : Client)
      → msg.uid ≡ row.uid
      → msg.id ≡ id
      → IsHome row start current
      → Keeps KeptIn (delete_closure msg current c)
  delete_closure-Kept msg current c e i home w k =
      let op = expunged current msg.uid in
      let gone = record w { done = w.done ++ op ∷ [] } in
      let carry : KeptIn w → CarriedIn gone = λ h. elim h [
        | inl (cached, since) ↦
            Carried-now row start op current w since home
              (inr (Memᴰ.head (ap (λ u. expunged current u) (sym e))))
        | inr c ↦ Carried-append row start op w c
      ] in
      elim (Bool-cases (c.carries op)) [
        | inl carried ↦ rw carried (inr (delete-Carried row start msg.id gone (carry k)))
        | inr refused ↦ rw refused (rw i (set_deleted-Kept false w k))
      ]

  -- a move keeps what its closure keeps; where the row is its own, the closure runs on the row's folder
  move_to-Keeps :
      (Good : World → Type 0) (conn : Conn) (dest_name : Bytes) (msg : Row) (src : Folder)
      → ((dest : Folder) (c : Client) → Keeps Good (move_closure msg src.full_name dest c))
      → Keeps Good (move_to conn msg dest_name src)
  move_to-Keeps Good conn dest_name msg src h =
      bind-Keeps Good (folder_named msg (λ f. eq_bytes f.full_name dest_name))
        (λ dest. with_command_conn conn (move_closure msg src.full_name dest))
        (folder_named-Keeps Good msg (λ f. eq_bytes f.full_name dest_name))
        (λ dest. conn-Keeps Good conn (move_closure msg src.full_name dest) (h dest))

  move_message-Carried :
      (conn : Conn) (dest_name : Bytes) (msg : Row)
      → Keeps CarriedIn (move_message conn dest_name msg)
  move_message-Carried conn dest_name msg =
      bind-Keeps CarriedIn (get_account msg.account >> folder_named msg (λ f. f.id == msg.folder))
        (move_to conn msg dest_name)
        (bind-Keeps CarriedIn (get_account msg.account)
          (λ _. folder_named msg (λ f. f.id == msg.folder))
          (get_account-Keeps CarriedIn msg.account)
          (λ _. folder_named-Keeps CarriedIn msg (λ f. f.id == msg.folder)))
        (λ src.
          move_to-Keeps CarriedIn conn dest_name msg src
            (λ dest c. move_closure-Carried msg src.full_name dest c))

  move_message-Kept :
      (conn : Conn) (dest_name : Bytes) (msg : Row) (w : World)
      → msg.uid ≡ row.uid
      → msg.account ≡ row.account
      → msg.folder ≡ row.folder
      → Since start w
      → KeptIn w
      → KeptIn (move_message conn dest_name msg w).1
  move_message-Kept conn dest_name msg w u a f since k =
      elim (Bool-cases (has_account msg.account w.accounts)) [
        | inl there ↦ rw there (
            bind_home row start KeptIn msg (move_to conn msg dest_name) w k since a f (λ src home.
              move_to-Keeps KeptIn conn dest_name msg src
                (λ dest c. move_closure-Kept msg src.full_name dest c u home) w k))
        | inr gone ↦ rw gone k
      ]

  exec_move-Kept : (conn : Conn) (dest_name : Bytes) → Keeps KeptIn (exec_move conn id dest_name)
  unfolding exec_move get_message
  exec_move-Kept conn dest_name w (inl ((r, e, u, a, f), since)) =
      rw e (move_message-Kept conn dest_name r w u a f since (inl ((r, e, u, a, f), since)))
  exec_move-Kept conn dest_name w (inr c) = inr (
      bind-Keeps CarriedIn (get_message id) (move_message conn dest_name)
        (get_message-Keeps CarriedIn id) (move_message-Carried conn dest_name) w c)

  module _ (conn : Conn) (msg : Row) (e : msg.uid ≡ row.uid) (i : msg.id ≡ id) where
    expunge-Kept :
        (current : Bytes) → IsHome row start current → Keeps KeptIn (expunge conn msg current)
    expunge-Kept current home =
        bind-Keeps KeptIn (get_account msg.account >> set_deleted msg.id true)
          (λ _. with_command_conn conn (delete_closure msg current))
          (bind-Keeps KeptIn (get_account msg.account) (λ _. set_deleted msg.id true)
            (get_account-Keeps KeptIn msg.account) (λ _ w k. rw i (set_deleted-Kept true w k)))
          (λ _.
            conn-Keeps KeptIn conn (delete_closure msg current)
              (λ c. delete_closure-Kept msg current c e i home))

    delete_from-Kept :
        (current : Folder) (trash : Option Folder)
        → IsHome row start current.full_name
        → Keeps KeptIn (delete_from conn msg current trash)
    delete_from-Kept current none home w k = expunge-Kept current.full_name home w k
    delete_from-Kept current (some trash) home w k = elim (Bool-cases current.is_trash) [
      | inl there ↦ rw there (expunge-Kept current.full_name home w k)
      | inr elsewhere ↦ rw elsewhere (rw i (exec_move-Kept conn trash.full_name w k))
    ]

    delete_message-Kept :
        (w : World)
        → msg.account ≡ row.account
        → msg.folder ≡ row.folder
        → Since start w
        → KeptIn w
        → KeptIn (delete_message conn msg w).1
    delete_message-Kept w a f since k =
        bind_home row start KeptIn msg
          (λ current w. delete_from conn msg current (folder_of msg.account (λ f. f.is_trash) w) w)
          w k since a f
          (λ current home.
            delete_from-Kept current (folder_of msg.account (λ f. f.is_trash) w) home w k)

-- Whatever connections there are, whatever the server refuses, and also when the command is run a second
-- time on a new connection: after a delete or a move of a cached message, a row with its id, UID, account
-- and folder is still there, or the server has during the command moved or expunged that UID in the
-- folder that the message was cached in.
pub delete_move-Kept :
    (conn : Conn) (id : ℕ) (dest_name : Bytes) (w : World) (r : Row)
    → find_row id w.rows ≡ some r
    → Kept id r w (exec_delete conn id w).1 × Kept id r w (exec_move conn id dest_name w).1
unfolding exec_delete get_message
delete_move-Kept conn id dest_name w r e =
    let since : Since w w = (refl, ([], sym (append-nil w.done))) in
    let k : Kept id r w w = inl ((r, e, refl, refl, refl), since) in
    (
      rw e (delete_message-Kept id r w conn r refl (find_id id w.rows r e) w refl refl since k),
      exec_move-Kept id r w conn dest_name w k,
    )
