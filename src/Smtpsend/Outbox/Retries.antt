-- ===== src/Smtpsend/Outbox/Retries.antt =====
-- How often, and when, the outbox retries an entry.
use native.Mathlib.Nat.{pow-le-pow_right}
use vayu_mail_mobile.Base.{
  ℕ, ◌+◌, ◌-◌, ◌*◌, ◌/◌, ◌^◌, ◌≡◌, ◌≤◌, ◌<◌, Bool, false, ◌&&◌, Option, none, some, List, [], ◌∷◌,
  ◌++◌, pos, Bytes, ◌==◌, leb, if◌then◌else◌, keep, All, arith, Bool-cases, inl, inr, refl, ap, ◌∙◌,
}
use vayu_mail_mobile.Store.Db.{OutboxEntry}
use vayu_mail_mobile.Store.Outbox.{is_due, by_queued_at, insert_queued}
use vayu_mail_mobile.Smtpsend.Outbox.{World, Run, second, backoff, process_outbox}
use vayu_mail_mobile.Store.Outbox.Ids.{Distinct}
use vayu_mail_mobile.Smtpsend.Outbox.Settle.{settle, put_row, fate_of}
use vayu_mail_mobile.Smtpsend.Outbox.Pass.{IsHealthy, is_turn, reports_of, process_outbox_settles}

pow_cap : (n : ℕ) → n ≤ 27 → 2 ^ n ≤ 2 ^ 27
pow_cap n h = pow-le-pow_right (omega arith) h

-- Up to the twenty-eighth failure the wait is a minute doubled for each earlier one: the shift does
-- not overflow.
pub backoff_exact : (n : ℕ) → n ≤ 27 → backoff n ≡ pos (60 * second * 2 ^ n)
unfolding backoff
backoff_exact n h = ground (arith, pow_cap n h)

-- how often an id was reported
abbrev pub report_count : ℕ → List (ℕ × Option Bytes) → ℕ
report_count id [] = 0
report_count id ((j, o) ∷ rs) = (if j == id then 1 else 0) + report_count id rs

-- the retries that the rows with an id have left
abbrev pub retries_left : ℕ → List OutboxEntry → ℕ
retries_left id [] = 0
retries_left id (e ∷ rows) =
    (if e.id == id then e.max_retries - e.retry_count else 0) + retries_left id rows

report_count-append :
    (id : ℕ) (rs qs : List (ℕ × Option Bytes))
    → report_count id (rs ++ qs) ≡ report_count id rs + report_count id qs
report_count-append id [] qs = omega arith
report_count-append id ((j, o) ∷ rs) qs = omega (arith, report_count-append id rs qs)

-- whether an entry is the account's and has the id
abbrev counts_one : World → ℕ → OutboxEntry → ℕ
counts_one w id e = if e.account_id == w.account && e.id == id then 1 else 0

reports_of_cons :
    (w : World) (id : ℕ) (e : OutboxEntry) (rows : List OutboxEntry)
    → report_count id (reports_of w (e ∷ rows))
      ≡ counts_one w id e + report_count id (reports_of w rows)
unfolding reports_of
reports_of_cons w id e rows = ground arith

reports-insert_queued :
    (w : World) (id : ℕ) (e : OutboxEntry) (rows : List OutboxEntry)
    → report_count id (reports_of w (insert_queued e rows))
      ≡ counts_one w id e + report_count id (reports_of w rows)
unfolding insert_queued
reports-insert_queued w id e [] = reports_of_cons w id e []
reports-insert_queued w id e (f ∷ rows) = elim (Bool-cases (leb e.queued_at f.queued_at)) [
  | inl first ↦ rw first (reports_of_cons w id e (f ∷ rows))
  | inr later ↦
      let a = reports_of_cons w id f (insert_queued e rows) in
      let b = reports_of_cons w id f rows in
      let c = reports-insert_queued w id e rows in rw later (omega (arith, a, b, c))
]

reports-by_queued_at :
    (w : World) (id : ℕ) (rows : List OutboxEntry)
    → report_count id (reports_of w (by_queued_at rows)) ≡ report_count id (reports_of w rows)
unfolding by_queued_at
reports-by_queued_at w id [] = refl
reports-by_queued_at w id (e ∷ rows) =
    reports-insert_queued w id e (by_queued_at rows)
    ∙ omega (arith, reports_of_cons w id e rows, reports-by_queued_at w id rows)

-- an attempt uses up a retry of its row
spend_row :
    (w : World) (id : ℕ) (e : OutboxEntry) (o : Option Bytes) (rows : List OutboxEntry)
    → e.retry_count < e.max_retries
    → (if e.id == id then 1 else 0) + retries_left id (put_row (fate_of w e o) rows)
      ≤ retries_left id (e ∷ rows)
spend_row w id e none rows h = ground arith
spend_row w id e (some message) rows h = ground arith

spend :
    (w : World) (id : ℕ) (rows : List OutboxEntry)
    → report_count id (reports_of w (keep (is_due (w.started_at / second)) rows))
        + retries_left id (settle w (is_turn w) rows)
      ≤ retries_left id rows
unfolding settle reports_of
spend w id [] = omega arith
spend w id (e ∷ rows) =
    ground (arith, spend w id rows, spend_row w id e (w.outcome e) (settle w (is_turn w) rows))

All-ne-settle :
    (w : World) (p : OutboxEntry → Bool) (i : ℕ) (rows : List OutboxEntry)
    → All (λ f. (f.id ≡ i) → ⊥) rows
    → All (λ f. (f.id ≡ i) → ⊥) (settle w p rows)
unfolding settle
All-ne-settle w p i [] h = tt
All-ne-settle w p i (e ∷ rows) (n, h) = elim (Bool-cases (p e)) [
  | inr miss ↦ rw miss (n, All-ne-settle w p i rows h)
  | inl hit ↦ rw hit (put (w.outcome e) (All-ne-settle w p i rows h))
]
  where
    put :
        (o : Option Bytes)
        → All (λ f. (f.id ≡ i) → ⊥) (settle w p rows)
        → All (λ f. (f.id ≡ i) → ⊥) (put_row (fate_of w e o) (settle w p rows))
    put none k = k
    put (some message) k = (n, k)

Distinct-settle :
    (w : World) (p : OutboxEntry → Bool) (rows : List OutboxEntry)
    → Distinct rows
    → Distinct (settle w p rows)
unfolding settle
Distinct-settle w p [] h = tt
Distinct-settle w p (e ∷ rows) (n, h) = elim (Bool-cases (p e)) [
  | inr miss ↦ rw miss (All-ne-settle w p e.id rows n, Distinct-settle w p rows h)
  | inl hit ↦
      rw hit (put (w.outcome e) (All-ne-settle w p e.id rows n) (Distinct-settle w p rows h))
]
  where
    put :
        (o : Option Bytes)
        → All (λ f. (f.id ≡ e.id) → ⊥) (settle w p rows)
        → Distinct (settle w p rows)
        → Distinct (put_row (fate_of w e o) (settle w p rows))
    put none k d = d
    put (some message) k d = (k, d)

-- the scheduler's passes, one after the other
pub pass_all : List World → Run → Run
pass_all [] s = s
pass_all (w ∷ ws) s = pass_all ws (process_outbox w s).1

-- no pass is interrupted
abbrev pub NeverStopped : World → Type 0
NeverStopped w = (e : OutboxEntry) → w.stopped e ≡ false

All-never :
    (w : World) (rows : List OutboxEntry) → NeverStopped w → All (λ e. w.stopped e ≡ false) rows
All-never w [] h = tt
All-never w (e ∷ rows) h = (h e, All-never w rows h)

-- Over any number of passes that are not interrupted, of any accounts at any times, an entry of a
-- healthy queue with distinct ids is attempted at most as often as it has retries left.
pub retries_bounded :
    (ws : List World) (id : ℕ) (s : Run)
    → IsHealthy s
    → Distinct s.db.outbox
    → All NeverStopped ws
    → report_count id (pass_all ws s).reports
      ≤ report_count id s.reports + retries_left id s.db.outbox
unfolding pass_all
retries_bounded [] id s h d never = omega arith
retries_bounded (w ∷ ws) id s h d (go, never) =
    let rows = s.db.outbox in
    let due = keep (is_due (w.started_at / second)) rows in
    let done = process_outbox_settles w s h d (All-never w rows go) in
    let split = report_count-append id s.reports (reports_of w (by_queued_at due)) in
    omega (
      arith,
      ap (λ r. report_count id (pass_all ws r.1).reports) done,
      retries_bounded ws id _ h (Distinct-settle w (is_turn w) rows d) never,
      split,
      reports-by_queued_at w id due,
      spend w id rows,
    )
