-- ===== src/Imapsync/Rows.antt =====
-- internal/mail/imapsync/fetch.go: which UIDs of a folder the cache has after a message is stored.
use vayu_mail_mobile.Base.{
  ℕ, ◌≤◌, ◌≡◌, refl, ap, ◌∙◌, max, Bool, true, false, ◌&&◌, ◌||◌, Option, none, some, List, [], ◌∷◌,
  Bytes, leb, ◌==◌, ==_iff, Bool-cases, inl, inr, arith,
}
use vayu_mail_mobile.Store.Messages.{
  Message, same_key, merged, inserted, upsert_row, in_folder, highest_uid,
}
use vayu_mail_mobile.Imapsync.{
  max_inline_body_bytes, Buffer, Envelope, message_from_buffer, with_envelope, bare_message,
  attach_body, keep_cipher, read_message,
}
use vayu_mail_mobile.Mime.Parse.{Parsed}
use vayu_mail_mobile.Imapsync.Fetch.{
  Library, Server, attach, parse_and_attach, fetch_and_attach_body, or_envelope_only, message_of,
}

-- the folder has a row with the UID
unfoldable pub cached : ℕ → ℕ → List Message → Bool
cached folder uid [] = false
cached folder uid (r ∷ rows) =
    let rest = cached folder uid rows in (in_folder folder r && r.uid == uid) || rest

same_key-fields :
    (r m : Message) → same_key r m ≡ true → (r.folder_id ≡ m.folder_id) × (r.uid ≡ m.uid)
same_key-fields r m h = ground arith

or_twice : (a b : Bool) → (a || b) ≡ (a || (a || b))
or_twice a b = ground arith

or_swap : (a b c : Bool) → (a || (b || c)) ≡ (b || (a || c))
or_swap a b c = ground arith

pub cached-upsert_row :
    (folder uid fresh : ℕ) (m : Message) (rows : List Message)
    → cached folder uid (upsert_row fresh m rows)
      ≡ ((in_folder folder m && m.uid == uid) || cached folder uid rows)
unfolding cached upsert_row merged inserted
cached-upsert_row folder uid fresh m [] = refl
cached-upsert_row folder uid fresh m (r ∷ rows) = elim (Bool-cases (same_key r m)) [
  | inl same ↦
      let (f, u) = same_key-fields r m same in
      rw same (rw f (rw u (or_twice (in_folder folder m && m.uid == uid) (cached folder uid rows))))
  | inr other ↦ rw other (
      ap (λ b. (in_folder folder r && r.uid == uid) || b)
        (cached-upsert_row folder uid fresh m rows)
      ∙ or_swap (in_folder folder r && r.uid == uid) (in_folder folder m && m.uid == uid)
          (cached folder uid rows))
]

only_head : (a b : Bool) → ((a && b) || false) ≡ true → (a ≡ true) × (b ≡ true)
only_head a b h = ground arith

pub cached_le :
    (folder uid : ℕ) (rows : List Message)
    → cached folder uid rows ≡ true
    → uid ≤ highest_uid folder rows
unfolding cached highest_uid
cached_le folder uid [] h = cc
cached_le folder uid (r ∷ rows) h = elim (Bool-cases (cached folder uid rows)) [
  | inl there ↦
      let le = cached_le folder uid rows there in
      elim (Bool-cases (in_folder folder r)) [
        | inl inside ↦ rw inside (omega (arith, le))
        | inr outside ↦ rw outside le
      ]
  | inr absent ↦
      let (inside, same) = only_head (in_folder folder r) (r.uid == uid) (rw absent at h) in
      let e : r.uid ≡ uid = (==_iff r.uid uid).0 same in rw inside (omega (arith, e))
]

-- the highest UID after a message of the folder is stored
pub highest_uid-upsert_row :
    (folder fresh : ℕ) (m : Message) (rows : List Message)
    → in_folder folder m ≡ true
    → highest_uid folder (upsert_row fresh m rows) ≡ max m.uid (highest_uid folder rows)
unfolding highest_uid upsert_row merged inserted
highest_uid-upsert_row folder fresh m [] inside = rw inside refl
highest_uid-upsert_row folder fresh m (r ∷ rows) inside = elim (Bool-cases (same_key r m)) [
  | inl same ↦
      let (f, u) = same_key-fields r m same in rw same (rw f (rw u (rw inside (omega arith))))
  | inr other ↦
      let rest = highest_uid-upsert_row folder fresh m rows inside in
      rw other (elim (Bool-cases (in_folder folder r)) [
        | inl in_it ↦ rw in_it (omega (arith, rest))
        | inr outside ↦ rw outside rest
      ])
]

kept_key :
    (block : Bytes) (m : Message)
    → ((keep_cipher block m).folder_id ≡ m.folder_id) × ((keep_cipher block m).uid ≡ m.uid)
kept_key [] m = (refl, refl)
kept_key (c ∷ s) m = (refl, refl)

-- a row is stored under the folder and the UID of the answer
Keyed : ℕ → ℕ → Message → Type 0
Keyed folder uid m = (m.folder_id ≡ folder) × (m.uid ≡ uid)

parsed-Keyed :
    (lib : Library) (folder uid : ℕ) (m : Message) (o : Option Parsed)
    → Keyed folder uid m
    → Keyed folder uid (or_envelope_only m (attach lib m o))
unfolding Keyed attach_body
parsed-Keyed lib folder uid m none k = k
parsed-Keyed lib folder uid m (some parsed) (f, u) =
    let (f2, u2) = kept_key parsed.encrypted_block (read_message parsed m) in (f2 ∙ f, u2 ∙ u)

attach-Keyed :
    (lib : Library) (folder uid : ℕ) (m : Message) (o : Option Bytes)
    → Keyed folder uid m
    → Keyed folder uid (or_envelope_only m (parse_and_attach lib m o))
unfolding Keyed attach_body
attach-Keyed lib folder uid m none k = k
attach-Keyed lib folder uid m (some raw) k = parsed-Keyed lib folder uid m (lib.parse raw) k

bare-Keyed :
    (strip : Bytes → Bytes) (account folder : ℕ) (buf : Buffer) (env : Option Envelope)
    → Keyed folder buf.uid (with_envelope strip env (bare_message account folder buf))
unfolding Keyed
bare-Keyed strip account folder buf none = (refl, refl)
bare-Keyed strip account folder buf (some env) = (refl, refl)

message_of-Keyed :
    (lib : Library) (server : Server) (account folder : ℕ) (buf : Buffer)
    → Keyed folder buf.uid (message_of lib server account folder buf)
unfolding message_of message_from_buffer fetch_and_attach_body
message_of-Keyed lib server account folder buf =
    let bare = bare-Keyed lib.strip account folder buf buf.envelope in
    elim (Bool-cases (leb buf.size max_inline_body_bytes)) [
      | inl small ↦ rw small (
          attach-Keyed lib folder buf.uid
            (with_envelope lib.strip buf.envelope (bare_message account folder buf))
            (server.body buf.uid) bare)
      | inr large ↦ rw large bare
    ]

after_upsert :
    (folder uid fresh : ℕ) (m : Message) (rows : List Message)
    → Keyed folder uid m
    → (highest_uid folder (upsert_row fresh m rows) ≡ max uid (highest_uid folder rows))
      × ((u : ℕ) → cached folder u (upsert_row fresh m rows) ≡ ((uid == u) || cached folder u rows))
unfolding Keyed
after_upsert folder uid fresh m rows (f, e) =
    let inside : in_folder folder m ≡ true = (==_iff m.folder_id folder).1 f in
    (
      highest_uid-upsert_row folder fresh m rows inside
          ∙ ap (λ u. max u (highest_uid folder rows)) e,
      λ u.
          cached-upsert_row folder u fresh m rows
          ∙ ap (λ b. (b && m.uid == u) || cached folder u rows) inside
          ∙ ap (λ v. (v == u) || cached folder u rows) e,
    )

-- what the cache has of the folder after a message is stored
pub stored_rows :
    (lib : Library) (server : Server) (account folder fresh : ℕ) (buf : Buffer)
    (rows : List Message)
    → (highest_uid folder (upsert_row fresh (message_of lib server account folder buf) rows)
        ≡ max buf.uid (highest_uid folder rows))
      × ((uid : ℕ)
          → cached folder uid (upsert_row fresh (message_of lib server account folder buf) rows)
            ≡ ((buf.uid == uid) || cached folder uid rows))
stored_rows lib server account folder fresh buf rows =
    after_upsert folder buf.uid fresh (message_of lib server account folder buf) rows
      (message_of-Keyed lib server account folder buf)
