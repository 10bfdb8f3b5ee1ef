-- ===== src/Smtpsend/Outbox/Pass.antt =====
-- `ProcessOutbox` on a healthy database, against the row-by-row description of `Settle`.
use vayu_mail_mobile.Base.{
  ℕ, ◌≡◌, ◌/◌, Bool, true, false, ◌&&◌, Option, none, some, List, [], ◌∷◌, ◌++◌, append_assoc,
  append-nil, Bytes, ok, ◌==◌, ==_iff, if◌then◌else◌, keep, All, arith, Bool-cases, inl, inr, refl,
  sym, ◌∙◌,
}
use vayu_mail_mobile.Store.Db.{Db, OutboxEntry, statement}
use vayu_mail_mobile.Store.Outbox.{
  is_due, due_outbox, mark_outbox_sent, mark_outbox_failed, by_queued_at,
}
use vayu_mail_mobile.Store.Outbox.Order.{All-by_queued_at}
use vayu_mail_mobile.Smtpsend.Outbox.{
  World, Run, second, record_outcome, process_entry, process_entries, process_outbox,
}
use vayu_mail_mobile.Smtpsend.Outbox.Selection.{
  attempted-by_queued_at, All-keep, Distinct-keep, Distinct-by_queued_at, All-Matches_self,
  attempted_selected,
}
use vayu_mail_mobile.Store.Outbox.Ids.{Distinct}
use vayu_mail_mobile.Smtpsend.Outbox.Settle.{
  settle, settle_cong, settle-settle, settle_none, attempted, attempt_of, attempt-settle, Matches,
  Matches-settle,
}

abbrev pub IsHealthy : Run → Type 0
IsHealthy s = s.db.faults ≡ []

abbrev pub with_outbox : Run → List OutboxEntry → Run
with_outbox s rows = record s { db = record s.db { outbox = rows } }

-- the results of the account's entries, in order
unfoldable pub reports_of : World → List OutboxEntry → List (ℕ × Option Bytes)
reports_of w [] = []
reports_of w (e ∷ entries) =
    let rest = reports_of w entries in
    if e.account_id == w.account then (e.id, w.outcome e) ∷ rest else rest

record_outcome_lem :
    (w : World) (e : OutboxEntry) (o : Option Bytes) (s : Run)
    → IsHealthy s
    → record_outcome w e o s ≡ (ok tt, with_outbox s (attempt_of w e o s.db.outbox))
unfolding record_outcome mark_outbox_sent mark_outbox_failed statement
record_outcome_lem w e none s h = rw h
record_outcome_lem w e (some message) s h = rw h

pub process_entry_lem :
    (w : World) (e : OutboxEntry) (s : Run)
    → IsHealthy s
    → w.stopped e ≡ false
    → process_entry w e s ≡ (
      ok tt,
      record (with_outbox s (attempt_of w e (w.outcome e) s.db.outbox)) {
        reports = s.reports ++ (e.id, w.outcome e) ∷ [];
      },
    )
unfolding process_entry
process_entry_lem w e s h go = rw go (rw (record_outcome_lem w e (w.outcome e) s h))

abbrev settled : World → List OutboxEntry → Run → Run
settled w entries s =
    record (with_outbox s (settle w (λ r. attempted w entries r.id) s.db.outbox)) {
      reports = s.reports ++ reports_of w entries;
    }

attempted_other :
    (w : World) (e : OutboxEntry) (entries : List OutboxEntry) (id : ℕ)
    → All (λ f. (f.id ≡ e.id) → ⊥) entries
    → (id == e.id) ≡ true
    → attempted w entries id ≡ false
unfolding attempted
attempted_other w e [] id h same = refl
attempted_other w e (f ∷ entries) id (ne, h) same =
    let ih = attempted_other w e entries id h same in
    elim (Bool-cases (id == f.id)) [
      | inl hit ↦ absurd (ne (sym ((==_iff id f.id).0 hit) ∙ (==_iff id e.id).0 same))
      | inr miss ↦ ground arith
    ]

All-Matches :
    (w : World) (e : OutboxEntry) (entries rows : List OutboxEntry)
    → All (λ f. (f.id ≡ e.id) → ⊥) entries
    → All (Matches rows) entries
    → All (Matches (settle w (λ r. r.id == e.id) rows)) entries
All-Matches w e [] rows ne h = tt
All-Matches w e (f ∷ entries) rows (n, ne) (m, h) =
    (Matches-settle w e f rows n m, All-Matches w e entries rows ne h)

process_entries_lem :
    (w : World) (entries : List OutboxEntry) (s : Run)
    → IsHealthy s
    → All (λ e. w.stopped e ≡ false) entries
    → Distinct entries
    → All (Matches s.db.outbox) entries
    → process_entries w entries s ≡ (ok tt, settled w entries s)
unfolding process_entries reports_of attempted
process_entries_lem w [] s h go d m = rw (settle_none w s.db.outbox, append-nil)
process_entries_lem w (e ∷ entries) s h (g, go) (ne, d) (me, m) =
    elim (Bool-cases (e.account_id == w.account)) [
      | inr other ↦ rw other (process_entries_lem w entries s h go d m)
      | inl ours ↦
          let rows = s.db.outbox in
          let at = attempt-settle w e (w.outcome e) rows me refl in
          let both =
            settle-settle w (λ id. id == e.id) (attempted w entries) rows
              (λ id same. attempted_other w e entries id ne same) in
          rw (ours, process_entry_lem w e s h g, at)
            (process_entries_lem w entries _ h go d (All-Matches w e entries rows ne m)
              ∙ rw (both, append_assoc))
    ]

-- the entries that a pass handles
abbrev pub is_turn : World → OutboxEntry → Bool
is_turn w r = r.account_id == w.account && is_due (w.started_at / second) r

All-attempted :
    (w : World) (p : OutboxEntry → Bool) (all rows : List OutboxEntry)
    → All (λ r. attempted w all r.id ≡ p r) rows
    → All (λ r. attempted w (by_queued_at all) r.id ≡ p r) rows
All-attempted w p all [] h = tt
All-attempted w p all (r ∷ rows) (x, h) =
    (attempted-by_queued_at w all r.id ∙ x, All-attempted w p all rows h)

due_outbox_lem :
    (now : ℕ) (db : Db)
    → db.faults ≡ []
    → due_outbox now db ≡ (ok (by_queued_at (keep (is_due now) db.outbox)), db)
unfolding due_outbox statement
due_outbox_lem now db h = ground arith

-- One pass over a healthy queue of distinct entries that is not interrupted succeeds, and its effect does
-- not depend on the order of sending: each due entry of the account is gone if it was sent, and
-- otherwise has one more retry, the error's text and its backed-off next time; every other row is
-- left as it was. The results are reported oldest entry first.
pub process_outbox_settles :
    (w : World) (s : Run)
    → IsHealthy s
    → Distinct s.db.outbox
    → All (λ e. w.stopped e ≡ false) s.db.outbox
    → process_outbox w s ≡ (
      ok tt,
      record (with_outbox s (settle w (is_turn w) s.db.outbox)) {
        reports =
            s.reports
            ++ reports_of w (by_queued_at (keep (is_due (w.started_at / second)) s.db.outbox));
      },
    )
unfolding process_outbox
process_outbox_settles w s h d go =
    let rows = s.db.outbox in
    let p = is_due (w.started_at / second) in
    let due = by_queued_at (keep p rows) in
    let pick =
      settle_cong w (λ r. attempted w due r.id) (is_turn w) rows
        (All-attempted w (is_turn w) (keep p rows) rows (attempted_selected w p rows d)) in
    rw (due_outbox_lem (w.started_at / second) s.db h) (
      process_entries_lem w due s h
        (All-by_queued_at (λ e. w.stopped e ≡ false) (keep p rows)
          (All-keep (λ e. w.stopped e ≡ false) p rows go))
        (Distinct-by_queued_at (keep p rows) (Distinct-keep p rows d))
        (All-by_queued_at (Matches rows) (keep p rows)
          (All-keep (Matches rows) p rows (All-Matches_self rows d)))
      ∙ rw pick)
