-- ===== src/Syncmanager/Send/Twice.antt =====
-- internal/syncmanager/exec.go and internal/mail/smtpsend/outbox.go: a command and a pass of the scheduler
-- that have read one entry.
use vayu_mail_mobile.Base.{
  ℕ, ◌≡◌, refl, sym, ap, arith, ◌∙◌, true, false, inl, inr, none, some, List, [], ◌∷◌, ◌++◌,
  append_assoc, append-nil, ok, err, ◌==◌, Bool-cases, All, Memᴰ, Bool,
}
use vayu_mail_mobile.Store.Db.{Db, OutboxEntry, statement, not_found}
use vayu_mail_mobile.Store.Outbox.{find_entry, get_outbox_entry, delete_entry, mark_outbox_sent}
use vayu_mail_mobile.Smtpsend.Outbox.{World, Run, store_error, process_entries}
use vayu_mail_mobile.Smtpsend.Outbox.Pass.{IsHealthy, with_outbox, reports_of, process_entry_lem}
use vayu_mail_mobile.Syncmanager.Send.{of_store, send_found, exec_send}

find-delete : (id : ℕ) (rows : List OutboxEntry) → find_entry id (delete_entry id rows) ≡ none
unfolding find_entry delete_entry
find-delete id [] = refl
find-delete id (e ∷ rows) = elim (Bool-cases (e.id == id)) [
  | inl same ↦ rw same (find-delete id rows)
  | inr other ↦ rw other (rw other (find-delete id rows))
]

-- the results of a pass do not depend on what the rows have become since they were read
reports-process_entries :
    (w : World) (entries : List OutboxEntry) (s : Run)
    → IsHealthy s
    → All (λ e. w.stopped e ≡ false) entries
    → (process_entries w entries s).1.reports ≡ s.reports ++ reports_of w entries
unfolding process_entries reports_of
reports-process_entries w [] s h go = rw append-nil refl
reports-process_entries w (e ∷ entries) s h (g, go) =
    elim (Bool-cases (e.account_id == w.account)) [
      | inr other ↦ rw other (reports-process_entries w entries s h go)
      | inl ours ↦ rw ours (
          rw (process_entry_lem w e s h g)
            (reports-process_entries w entries _ h go ∙ rw append_assoc refl))
    ]

reported :
    (w : World) (e : OutboxEntry) (entries : List OutboxEntry)
    → Memᴰ e entries
    → (e.account_id == w.account) ≡ true
    → Memᴰ (e.id, w.outcome e) (reports_of w entries)
unfolding reports_of
reported w e [] m ours = elim m [ ]
reported w e (f ∷ entries) (Memᴰ.head at) ours =
    let same : (f.account_id == w.account) ≡ true =
      ap (λ (x : OutboxEntry). x.account_id == w.account) (sym at) ∙ ours in
    rw same (Memᴰ.head (ap (λ (x : OutboxEntry). (x.id, w.outcome x)) at))
reported w e (f ∷ entries) (Memᴰ.tail m) ours = elim (Bool-cases (f.account_id == w.account)) [
  | inl same ↦ rw same (Memᴰ.tail (reported w e entries m ours))
  | inr other ↦ rw other (reported w e entries m ours)
]

get_outbox_entry-found :
    (id : ℕ) (e : OutboxEntry) (db : Db)
    → db.faults ≡ []
    → find_entry id db.outbox ≡ some e
    → get_outbox_entry id db ≡ (ok e, db)
unfolding get_outbox_entry statement
get_outbox_entry-found id e db h at = ground arith

get_outbox_entry-missing :
    (id : ℕ) (db : Db)
    → db.faults ≡ []
    → find_entry id db.outbox ≡ none
    → get_outbox_entry id db ≡ (err not_found, db)
unfolding get_outbox_entry statement
get_outbox_entry-missing id db h at = ground arith

mark_outbox_sent_lem :
    (id : ℕ) (db : Db)
    → db.faults ≡ []
    → mark_outbox_sent id db ≡ (ok tt, record db { outbox = delete_entry id db.outbox })
unfolding mark_outbox_sent statement
mark_outbox_sent_lem id db h = ground arith

module _ (w : World) (known : ℕ → Bool) (e : OutboxEntry) (s : Run) where
  -- what the command leaves behind when the entry is sent
  abbrev pub sent : Run
  sent = record (with_outbox s (delete_entry e.id s.db.outbox)) {
    reports = s.reports ++ (e.id, none) ∷ [];
  }

  exec_send-sent :
      IsHealthy s
      → find_entry e.id s.db.outbox ≡ some e
      → known e.account_id ≡ true
      → w.outcome e ≡ none
      → exec_send w known e.id s ≡ (ok tt, sent)
  unfolding exec_send send_found
  exec_send-sent h at there taken =
      rw (get_outbox_entry-found e.id e s.db h at)
        (rw there (rw taken (rw (mark_outbox_sent_lem e.id s.db h) refl)))

  -- The server takes an entry of a healthy outbox, whose account is there. A command that sends it succeeds,
  -- and the row is gone: a second command finds no entry. But a pass of the account's scheduler that has read
  -- the entry before the command removes it sends it again: it reports a second success for the same
  -- entry.
  pub sent_twice :
      (entries : List OutboxEntry)
      → IsHealthy s
      → find_entry e.id s.db.outbox ≡ some e
      → known e.account_id ≡ true
      → w.outcome e ≡ none
      → (e.account_id == w.account) ≡ true
      → Memᴰ e entries
      → All (λ f. w.stopped f ≡ false) entries
      → (exec_send w known e.id s ≡ (ok tt, sent))
        × ((exec_send w known e.id sent).0 ≡ err (of_store (store_error not_found)))
        × ((process_entries w entries sent).1.reports
            ≡ s.reports ++ (e.id, none) ∷ reports_of w entries)
        × Memᴰ (e.id, none) (reports_of w entries)
  unfolding exec_send
  sent_twice entries h at there taken ours m go = (
    exec_send-sent h at there taken,
    rw (get_outbox_entry-missing e.id sent.db h (find-delete e.id s.db.outbox)) refl,
    reports-process_entries w entries sent h go
        ∙ append_assoc s.reports ((e.id, none) ∷ []) (reports_of w entries),
    rw taken at (reported w e entries m ours),
  )
