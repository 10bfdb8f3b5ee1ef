-- ===== src/Imapsync/Tests.antt =====
-- Runs of the sync of a folder at concrete inputs, and the witnesses of its properties.
use vayu_mail_mobile.Base.{
  ℕ, ◌≤◌, ◌<◌, ◌≡◌, refl, ap, Memᴰ, true, false, not, none, some, List, [], ◌∷◌, keep, codes, leb,
  ltb, ◌==◌, All, ok, inl, inr, sym, eq_bytes, Bool-cases, arith,
}
use vayu_mail_mobile.Store.Messages.{
  get_message_by_uid, Message, Folder, get_folder_by_full_name, highest_uid,
}
use vayu_mail_mobile.Imapsync.{Buffer, Selected, bare_message}
use vayu_mail_mobile.Imapsync.Fetch.{Library, Server, Faults, Sync, sync_folder}
use vayu_mail_mobile.Imapsync.Rows.{cached}
use vayu_mail_mobile.Imapsync.Midway.{Complete, Ascending, uids, Answers}
use vayu_mail_mobile.Imapsync.Resume.{sync_folder-Complete}
use vayu_mail_mobile.Imapsync.Mirror.{Earlier, sync_all, sync_folder-Mirrored}
use vayu_mail_mobile.Imapsync.Idle.{is_live, refresh_flags}
use vayu_mail_mobile.Imapsync.Expunge.{is_dead}
use vayu_mail_mobile.Imapsync.Unchanged.{IsUnchanged}
use vayu_mail_mobile.Imapsync.Anchor.{refresh_flags-sync_folder}

abbrev inbox : Folder
inbox = record {
  id = 1;
  account_id = 7;
  name = codes "INBOX";
  full_name = codes "INBOX";
  delimiter = codes "/";
  uid_validity = 9;
  highest_modseq = 40;
  is_inbox = true;
  is_sent = false;
  is_drafts = false;
  is_trash = false;
  is_archive = false;
}

abbrev mail : ℕ → ℕ → Buffer
mail uid modseq = record { uid = uid; flags = []; size = 100; modseq = modseq; envelope = none }

abbrev box : List Buffer
box = mail 3 41 ∷ mail 5 50 ∷ []

abbrev lib : Library
lib = record { strip = λ s. s; parse = λ raw. none; to_json = λ refs. none }

-- a server whose mailbox holds the UIDs 3 and 5
abbrev server : Server
server = record {
  envelopes = λ n. some (keep (λ b. leb n b.uid) box);
  body = λ uid. none;
  inventory = some (3 ∷ 5 ∷ []);
  changed = λ n. some (keep (λ b. ltb n b.modseq) box);
  condstore = true;
}

abbrev quiet : Faults
quiet = record {
  stopped = λ n. false;
  refuses = λ n. false;
  clear_fails = false;
  state_fails = false;
  highest_fails = false;
}

-- the context is cancelled before the second message
abbrev cut_off : Faults
cut_off = record quiet { stopped = λ n. n == 1 }

abbrev old : Message
old = record (bare_message 7 1 (mail 3 41)) { id = 20 }

abbrev gone : Message
gone = record (bare_message 7 1 (mail 4 39)) { id = 21 }

abbrev before : Sync
before = record {
  db = record { messages = []; folders = inbox ∷ []; next_message = 30; next_folder = 2 };
  announced = [];
  progress = [];
  flag_changes = [];
}

abbrev selected : Selected
selected = record { uid_validity = 9; highest_modseq = 50; num_messages = 2 }

abbrev uid_list : List ℕ
uid_list = 3 ∷ 5 ∷ []

Told : ℕ → List Buffer → Type 0
Told n bufs = Ascending bufs × ((uid : ℕ) → Memᴰ uid uid_list → n ≤ uid → Memᴰ uid (uids bufs))

only_five : (n uid : ℕ) → leb n 3 ≡ false → n ≤ uid → Memᴰ uid uid_list → Memᴰ uid (5 ∷ [])
only_five n uid high le (Memᴰ.head e) = let no_way : ⊥ = ground arith in elim no_way [ ]
only_five n uid high le (Memᴰ.tail at) = at

nothing :
    (n uid : ℕ) → leb n 3 ≡ false → leb n 5 ≡ false → n ≤ uid → Memᴰ uid uid_list → Memᴰ uid []
nothing n uid high over le (Memᴰ.head e) = let no_way : ⊥ = ground arith in elim no_way [ ]
nothing n uid high over le (Memᴰ.tail (Memᴰ.head e)) =
    let no_way : ⊥ = ground arith in elim no_way [ ]
nothing n uid high over le (Memᴰ.tail (Memᴰ.tail at)) = at

told : (n : ℕ) → Told n (keep (λ b. leb n b.uid) box)
unfolding Told
told n = elim (Bool-cases (leb n 3)) [
  | inl low ↦
      let b : leb n 5 ≡ true = ground (arith, low) in
      rw low (rw b (((omega arith, tt), (tt, tt)), λ uid at le. at))
  | inr high ↦ rw high (elim (Bool-cases (leb n 5)) [
    | inl low ↦ rw low ((tt, tt), λ uid at le. only_five n uid high le at)
    | inr over ↦ rw over (tt, λ uid at le. nothing n uid high over le at)
  ])
]

server-Answers : Answers uid_list server
unfolding Told
server-Answers n bufs e = let g : keep (λ b. leb n b.uid) box ≡ bufs = cc in rw (sym g) (told n)

positive_uids : All (λ uid. 0 < uid) uid_list
positive_uids = (omega arith, (omega arith, tt))

-- nothing is cached, so everything up to the highest cached UID is
before-Complete : Complete 1 uid_list before.db.messages
unfolding cached highest_uid
before-Complete uid (Memᴰ.head e) le = let no_way : ⊥ = omega (arith, e, le) in elim no_way [ ]
before-Complete uid (Memᴰ.tail (Memᴰ.head e)) le =
    let no_way : ⊥ = omega (arith, e, le) in elim no_way [ ]
before-Complete uid (Memᴰ.tail (Memᴰ.tail at)) le = elim at [ ]

sync_folder-Complete_example :
    Complete 1 uid_list (sync_folder lib server cut_off 7 inbox selected before).1.db.messages
sync_folder-Complete_example =
    sync_folder-Complete lib server cut_off 7 inbox selected uid_list before positive_uids
      server-Answers (λ e. refl) (λ e. before-Complete)

-- a sync that was cancelled, and one behind which the database refused a row
abbrev earlier : List Earlier
earlier =
    record { faults = cut_off; uid_validity = 8; selected = selected }
    ∷ record {
      faults = record quiet { refuses = λ n. true };
      uid_validity = 9;
      selected = selected;
    }
    ∷ []

sync_folder-Mirrored_example :
    let interrupted = sync_all lib server 7 inbox earlier before in
    ((sync_folder lib server quiet 7 inbox selected interrupted).0 ≡ ok tt)
    × ((uid : ℕ)
        → Memᴰ uid uid_list
        → cached 1 uid (sync_folder lib server quiet 7 inbox selected interrupted).1.db.messages
          ≡ true)
unfolding highest_uid
sync_folder-Mirrored_example =
    sync_folder-Mirrored lib server quiet 7 inbox selected uid_list earlier before refl
      (refl, (refl, tt)) ((λ n. (refl, refl)), refl, refl, refl) positive_uids refl
      (λ n. (keep (λ b. leb n b.uid) box, refl)) server-Answers

abbrev two_rows : Sync
two_rows = record before { db = record before.db { messages = old ∷ gone ∷ [] } }

found_inbox : get_folder_by_full_name 7 (codes "INBOX") (inbox ∷ []) ≡ some inbox
unfolding get_folder_by_full_name eq_bytes
found_inbox = refl

-- the message with UID 4 is gone from the server, and its row goes too
reconciled : keep (λ r. not (is_dead 1 (is_live uid_list) r)) two_rows.db.messages ≡ old ∷ []
unfolding is_live
reconciled = refl

-- the message 5 changes again behind the SELECT, the message 3 does not
abbrev later_box : List Buffer
later_box = mail 3 41 ∷ mail 5 60 ∷ []

abbrev later : Server
later = record server { changed = λ n. some (keep (λ b. ltb n b.modseq) later_box) }

three-IsUnchanged : IsUnchanged 50 3 later_box
three-IsUnchanged b (Memᴰ.head e) same = rw e (omega arith)
three-IsUnchanged b (Memᴰ.tail (Memᴰ.head e)) same =
    let five : b.uid ≡ 5 = ap (λ x. x.uid) e in
    let no_way : ⊥ = omega (arith, five, same) in elim no_way [ ]
three-IsUnchanged b (Memᴰ.tail (Memᴰ.tail at)) same = elim at [ ]

refresh_flags-sync_folder_example :
    let synced = (sync_folder lib later quiet 7 inbox selected before).1 in
    get_message_by_uid 1 3 (refresh_flags later quiet 7 (codes "INBOX") synced).1.db.messages
    ≡ get_message_by_uid 1 3 synced.db.messages
refresh_flags-sync_folder_example =
    refresh_flags-sync_folder lib later quiet 7 (codes "INBOX") inbox selected later_box before 3
      found_inbox (λ e. refl) refl refl (omega arith) three-IsUnchanged refl
