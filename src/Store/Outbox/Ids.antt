-- ===== src/Store/Outbox/Ids.antt =====
-- The ids of the outbox table: each names one entry.
use vayu_mail_mobile.Base.{
  ℕ, ◌≡◌, ◌≤◌, ◌<◌, Option, none, some, List, [], ◌∷◌, ◌++◌, Bytes, Result, ok, err, ◌==◌,
  if◌then◌else◌, All, All-append, arith, refl,
}
use vayu_mail_mobile.Store.Db.{Db, DbError, not_found, OutboxEntry, statement}
use vayu_mail_mobile.Store.Outbox.{next_id, new_entry, enqueue_outbox, find_entry, get_outbox_entry}

-- no two entries have the same id
abbrev pub Distinct : List OutboxEntry → Type 0
Distinct [] = Unit
Distinct (e ∷ rows) = All (λ f. (f.id ≡ e.id) → ⊥) rows × Distinct rows

below_mono :
    (m n : ℕ) (rows : List OutboxEntry)
    → m ≤ n
    → All (λ f. f.id < m) rows
    → All (λ f. f.id < n) rows
below_mono m n [] l h = tt
below_mono m n (f ∷ rows) l (x, h) = (omega arith, below_mono m n rows l h)

below_next : (rows : List OutboxEntry) → All (λ f. f.id < next_id rows) rows
unfolding next_id
below_next [] = tt
below_next (e ∷ rows) = (
  ground arith,
  below_mono (next_id rows) (next_id (e ∷ rows)) rows (ground arith) (below_next rows),
)

Distinct-snoc :
    (rows : List OutboxEntry) (e : OutboxEntry)
    → Distinct rows
    → All (λ f. f.id < e.id) rows
    → Distinct (rows ++ e ∷ [])
Distinct-snoc [] e d h = (tt, tt)
Distinct-snoc (f ∷ rows) e (n, d) (x, h) = (
  All-append (λ g. (g.id ≡ f.id) → ⊥) rows (e ∷ []) n ((λ i. omega arith), tt),
  Distinct-snoc rows e d h,
)

find-snoc :
    (j : ℕ) (rows : List OutboxEntry) (e : OutboxEntry)
    → All (λ f. f.id < e.id) rows
    → find_entry j (rows ++ e ∷ []) ≡ (if e.id == j then some e else find_entry j rows)
unfolding find_entry
find-snoc j [] e h = refl
find-snoc j (f ∷ rows) e (x, h) = ground (arith, find-snoc j rows e h)

abbrev found_result : Option OutboxEntry → Result DbError OutboxEntry
found_result none = err not_found
found_result (some e) = ok e

get_outbox_entry_lem :
    (j : ℕ) (db : Db)
    → db.faults ≡ []
    → get_outbox_entry j db ≡ (found_result (find_entry j db.outbox), db)
unfolding get_outbox_entry statement
get_outbox_entry_lem j db h = ground arith

-- On a healthy database with distinct ids, queueing a message gives it an id of its own and keeps the ids
-- distinct; reading that id returns the message, due at once with five retries, and reading any
-- other id returns what it returned before.
pub get-enqueue_outbox :
    (account now j : ℕ) (raw : Bytes) (db : Db)
    → db.faults ≡ []
    → Distinct db.outbox
    → (id : ℕ) × (db' : Db) × (enqueue_outbox account raw now db ≡ (ok id, db'))
      × Distinct db'.outbox
      × ((get_outbox_entry j db').0
          ≡ (if id == j then ok (new_entry id account raw now) else (get_outbox_entry j db).0))
unfolding enqueue_outbox statement
get-enqueue_outbox account now j raw db h d =
    let id = next_id db.outbox in
    let e = new_entry id account raw now in
    let db' = record db { outbox = db.outbox ++ e ∷ [] } in
    let below = below_next db.outbox in
    (
      id,
      db',
      rw h,
      Distinct-snoc db.outbox e d below,
      rw (get_outbox_entry_lem j db' h, get_outbox_entry_lem j db h, find-snoc j db.outbox e below)
          (ground arith),
    )
