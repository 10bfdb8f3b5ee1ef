-- ===== src/Imapsync/Unchanged.antt =====
-- internal/mail/imapsync/idle.go, RefreshFlags: the rows of messages that the server does not report.
use vayu_mail_mobile.Base.{
  Bool, not, ==_iff, Memᴰ, bind-Keeps, ◌++◌, ℕ, ◌+◌, ◌≤◌, ◌<◌, ◌≡◌, refl, ap, ◌∙◌, true, false,
  ◌&&◌, Option, some, List, [], ◌∷◌, map, keep, Bytes, ltb, lt→ltb, ◌==◌, if◌then◌else◌, Bool-cases,
  inl, inr, All, Keeps, arith,
}
use vayu_mail_mobile.Store.Messages.{
  Message, FlagState, in_folder, folder_flags, get_message_by_uid, update_message_flags, Folder,
  set_folder_sync_state, get_folder_by_full_name,
}
use vayu_mail_mobile.Imapsync.{join_flags, Buffer}
use vayu_mail_mobile.Imapsync.Fetch.{Server, Faults, Sync}
use vayu_mail_mobile.Imapsync.Idle.{
  since, refresh_with, differs, flags_at, flags_of, uses_condstore, in_named, refresh_turns,
  max_modseq, advance, refresh_flags,
}

-- none of the messages has that UID
abbrev Without : ℕ → List Buffer → Type 0
Without uid = All (λ b. (b.uid == uid) ≡ false)

-- the messages with that UID have not changed since `top`
abbrev pub IsUnchanged : ℕ → ℕ → List Buffer → Type 0
IsUnchanged top uid box = (b : Buffer) → Memᴰ b box → b.uid ≡ uid → b.modseq ≤ top

changed-Without :
    (top uid : ℕ) (box : List Buffer)
    → IsUnchanged top uid box
    → Without uid (keep (λ b. ltb top b.modseq) box)
changed-Without top uid [] h = tt
changed-Without top uid (b ∷ box) h =
    let rest = changed-Without top uid box (λ c at. h c (Memᴰ.tail at)) in
    elim (Bool-cases (ltb top b.modseq)) [
      | inr below ↦ rw below rest
      | inl above ↦ rw above (elim (Bool-cases (b.uid == uid)) [
        | inr other ↦ (other, rest)
        | inl same ↦
            let le = h b (Memᴰ.head refl) ((==_iff b.uid uid).0 same) in
            let no_way : ⊥ = ground (arith, above, le) in elim no_way [ ]
      ])
    ]

other_row :
    (folder u uid : ℕ) (r : Message)
    → (u == uid) ≡ false
    → (in_folder folder r && r.uid == u) ≡ true
    → (r.uid == uid) ≡ false
other_row folder u uid r differ at = ground arith

update-other :
    (folder u uid : ℕ) (next : FlagState) (rows : List Message)
    → (u == uid) ≡ false
    → get_message_by_uid folder uid (
        map
          (λ r.
            if in_folder folder r && r.uid == u
            then record r {
              flags = next.flags;
              is_read = next.is_read;
              is_flagged = next.is_flagged;
            }
            else r)
          rows)
      ≡ get_message_by_uid folder uid rows
unfolding get_message_by_uid
update-other folder u uid next [] differ = refl
update-other folder u uid next (r ∷ rows) differ =
    let rest = update-other folder u uid next rows differ in
    elim (Bool-cases (in_folder folder r && r.uid == u)) [
      | inl at ↦
          let miss : (in_folder folder r && r.uid == uid) ≡ false =
            ground (arith, other_row folder u uid r differ at) in
          rw at (rw miss rest)
      | inr not_at ↦ rw not_at (elim (Bool-cases (in_folder folder r && r.uid == uid)) [
        | inl found ↦ rw found refl
        | inr passed ↦ rw passed rest
      ])
    ]

module _ (folder uid : ℕ) (row : Option Message) where
  abbrev SameRow : Sync → Type 0
  SameRow s = get_message_by_uid folder uid s.db.messages ≡ row

  turns-SameRow :
      (refuses : ℕ → Bool) (known : List (ℕ × FlagState)) (turn : ℕ) (bufs : List Buffer)
      → Without uid bufs
      → Keeps SameRow (refresh_turns refuses folder known turn bufs)
  unfolding refresh_turns update_message_flags
  turns-SameRow refuses known turn [] none_there s at = at
  turns-SameRow refuses known turn (b ∷ bufs) (other, none_there) s at =
      let rest = turns-SameRow refuses known (turn + 1) bufs none_there in
      elim (Bool-cases (differs (flags_at b.uid known) (flags_of b))) [
        | inr same ↦ rw same (rest s at)
        | inl new ↦ rw new (elim (Bool-cases (refuses turn)) [
          | inl refused ↦ rw refused at
          | inr taken ↦ rw taken (
              rest
                (record s {
                  db = update_message_flags folder b.uid (flags_of b) s.db;
                  flag_changes = s.flag_changes ++ (b.uid, join_flags b.flags) ∷ [];
                })
                (update-other folder b.uid uid (flags_of b) s.db.messages other ∙ at))
        ])
      ]

  advance-SameRow :
      (server : Server) (fails : Bool) (f : Folder) (modseq : ℕ)
      → Keeps SameRow (advance server fails f modseq)
  unfolding advance set_folder_sync_state
  advance-SameRow server fails f modseq s at =
      elim (Bool-cases (uses_condstore server f && not (modseq == f.highest_modseq))) [
        | inr stays ↦ rw stays at
        | inl moves ↦
            rw moves (elim (Bool-cases fails) [
              | inl refused ↦ rw refused at
              | inr written ↦ rw written at
            ])
      ]

  refresh_with-SameRow :
      (server : Server) (faults : Faults) (f : Folder) (bufs : List Buffer) (s : Sync)
      → f.id ≡ folder
      → Without uid bufs
      → SameRow s
      → SameRow (refresh_with server faults f (some bufs) s).1
  refresh_with-SameRow server faults f bufs s same none_there at =
      bind-Keeps SameRow
        (refresh_turns faults.refuses f.id (folder_flags f.id s.db.messages) 0 bufs)
        (λ _. advance server faults.state_fails f (max_modseq f.highest_modseq bufs))
        (rw same
          (turns-SameRow faults.refuses (folder_flags folder s.db.messages) 0 bufs none_there))
        (λ _. advance-SameRow server faults.state_fails f (max_modseq f.highest_modseq bufs)) s at

pub refresh_unchanged :
    (server : Server) (faults : Faults) (account : ℕ) (name : Bytes) (f : Folder)
    (box : List Buffer) (s : Sync) (uid : ℕ)
    → get_folder_by_full_name account name s.db.folders ≡ some f
    → server.condstore ≡ true
    → 0 < f.highest_modseq
    → IsUnchanged f.highest_modseq uid box
    → server.changed f.highest_modseq ≡ some (keep (λ b. ltb f.highest_modseq b.modseq) box)
    → get_message_by_uid f.id uid (refresh_flags server faults account name s).1.db.messages
      ≡ get_message_by_uid f.id uid s.db.messages
unfolding refresh_flags in_named
refresh_unchanged server faults account name f box s uid known condstore anchor unchanged answer =
    let bufs = keep (λ b. ltb f.highest_modseq b.modseq) box in
    let asks : since server f ≡ f.highest_modseq =
      rw condstore (rw (lt→ltb 0 f.highest_modseq anchor) refl) in
    rw known (
      rw (ap server.changed asks ∙ answer) (
        refresh_with-SameRow f.id uid (get_message_by_uid f.id uid s.db.messages) server faults f
          bufs s refl (changed-Without f.highest_modseq uid box unchanged) refl))
