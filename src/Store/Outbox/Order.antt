-- ===== src/Store/Outbox/Order.antt =====
-- What the queries of internal/store/outbox.go select, and in which order.
use mathlib.Core.List.{Perm}
use mathlib.Core.List.Perm
use vayu_mail_mobile.Base.{
  ℕ, ◌≡◌, ◌≤◌, List, [], ◌∷◌, ok, leb, leb→le, keep, All, arith, Bool-cases, inl, inr,
}
use vayu_mail_mobile.Store.Db.{Db, OutboxEntry, statement}
use vayu_mail_mobile.Store.Outbox.{
  is_due, is_dead, insert_queued, by_queued_at, due_outbox, dead_letters,
}

-- oldest first
abbrev pub OldestFirst : List OutboxEntry → Type 0
OldestFirst [] = Unit
OldestFirst (e ∷ rows) = All (λ f. e.queued_at ≤ f.queued_at) rows × OldestFirst rows

insert_queued-perm :
    (e : OutboxEntry) (rows : List OutboxEntry) → Perm (insert_queued e rows) (e ∷ rows)
unfolding insert_queued
insert_queued-perm e [] = Perm.refl _
insert_queued-perm e (f ∷ rows) = elim (Bool-cases (leb e.queued_at f.queued_at)) [
  | inl first ↦ rw first (Perm.refl _)
  | inr later ↦ rw later (Perm.trans (Perm.cons f (insert_queued-perm e rows)) (Perm.swap e f rows))
]

by_queued_at-perm : (rows : List OutboxEntry) → Perm (by_queued_at rows) rows
unfolding by_queued_at
by_queued_at-perm [] = Perm.refl _
by_queued_at-perm (e ∷ rows) =
    Perm.trans (insert_queued-perm e (by_queued_at rows)) (Perm.cons e (by_queued_at-perm rows))

pub All-insert_queued :
    (P : OutboxEntry → Type 0) (e : OutboxEntry) (rows : List OutboxEntry)
    → P e
    → All P rows
    → All P (insert_queued e rows)
unfolding insert_queued
All-insert_queued P e [] p h = (p, tt)
All-insert_queued P e (f ∷ rows) p (q, h) = elim (Bool-cases (leb e.queued_at f.queued_at)) [
  | inl first ↦ rw first (p, (q, h))
  | inr later ↦ rw later (q, All-insert_queued P e rows p h)
]

All-mono :
    (t u : ℕ) (rows : List OutboxEntry)
    → t ≤ u
    → All (λ f. u ≤ f.queued_at) rows
    → All (λ f. t ≤ f.queued_at) rows
All-mono t u [] l h = tt
All-mono t u (f ∷ rows) l (q, h) = (omega arith, All-mono t u rows l h)

insert_queued-OldestFirst :
    (e : OutboxEntry) (rows : List OutboxEntry)
    → OldestFirst rows
    → OldestFirst (insert_queued e rows)
unfolding insert_queued
insert_queued-OldestFirst e [] h = (tt, tt)
insert_queued-OldestFirst e (f ∷ rows) (all, h) = elim (Bool-cases (leb e.queued_at f.queued_at)) [
  | inl first ↦
      let l = leb→le _ _ first in
      rw first ((l, All-mono e.queued_at f.queued_at rows l all), (all, h))
  | inr later ↦ rw later (
    All-insert_queued (λ g. f.queued_at ≤ g.queued_at) e rows (ground arith) all,
    insert_queued-OldestFirst e rows h,
  )
]

by_queued_at-OldestFirst : (rows : List OutboxEntry) → OldestFirst (by_queued_at rows)
unfolding by_queued_at
by_queued_at-OldestFirst [] = tt
by_queued_at-OldestFirst (e ∷ rows) =
    insert_queued-OldestFirst e (by_queued_at rows) (by_queued_at-OldestFirst rows)

pub All-by_queued_at :
    (P : OutboxEntry → Type 0) (rows : List OutboxEntry) → All P rows → All P (by_queued_at rows)
unfolding by_queued_at
All-by_queued_at P [] h = tt
All-by_queued_at P (e ∷ rows) (p, h) =
    All-insert_queued P e (by_queued_at rows) p (All-by_queued_at P rows h)

-- `DueOutbox` and `DeadLetters` return, oldest first and as often as they stand in the table, the
-- entries whose next attempt time has come and whose retries are left, and the account's entries whose
-- retries are used up.
pub outbox_queries :
    (now account : ℕ) (db : Db)
    → db.faults ≡ []
    → (due : List OutboxEntry) × (dead : List OutboxEntry) × ((due_outbox now db) ≡ (ok due, db))
      × ((dead_letters account db) ≡ (ok dead, db))
      × OldestFirst due
      × Perm due (keep (is_due now) db.outbox)
      × OldestFirst dead
      × Perm dead (keep (is_dead account) db.outbox)
unfolding due_outbox dead_letters statement
outbox_queries now account db h = (
  by_queued_at (keep (is_due now) db.outbox),
  by_queued_at (keep (is_dead account) db.outbox),
  ground arith,
  ground arith,
  by_queued_at-OldestFirst _,
  by_queued_at-perm _,
  by_queued_at-OldestFirst _,
  by_queued_at-perm _,
)
