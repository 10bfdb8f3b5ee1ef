-- ===== src/Store/Outbox.antt =====
-- internal/store/outbox.go: the queue of outbound messages, as statements on the outbox table of
-- internal/store/schema.go.
pub mod Order
pub mod Ids
use vayu_mail_mobile.Base.{
  ℕ, zero, suc, ◌+◌, ◌≡◌, Bool, true, false, ◌&&◌, Option, none, some, List, [], ◌∷◌, ◌++◌, ℤ, pos,
  negsuc, Bytes, Exec, Result, ok, err, pure, raise, ◌>>=◌, ltb, leb, ◌==◌, if◌then◌else◌, keep,
}
use vayu_mail_mobile.Store.Db.{Db, DbError, not_found, OutboxEntry, statement}

-- `INTEGER PRIMARY KEY`: one more than the largest id in use
unfoldable pub next_id : List OutboxEntry → ℕ
next_id [] = 1
next_id (e ∷ rows) = let n = next_id rows in if ltb e.id n then n else e.id + 1

-- a row with the defaults of the schema
abbrev pub new_entry : ℕ → ℕ → Bytes → ℕ → OutboxEntry
new_entry id account raw now = record {
  id = id;
  account_id = account;
  raw_message = raw;
  retry_count = 0;
  max_retries = 5;
  next_attempt = pos now;
  last_error = [];
  queued_at = now;
}

unfoldable pub enqueue_outbox : ℕ → Bytes → ℕ → Exec Db DbError ℕ
enqueue_outbox account raw now = statement (λ db.
    let id = next_id db.outbox in
    (id, record db { outbox = db.outbox ++ new_entry id account raw now ∷ [] }))

unfoldable pub find_entry : ℕ → List OutboxEntry → Option OutboxEntry
find_entry id [] = none
find_entry id (e ∷ rows) = if e.id == id then some e else find_entry id rows

abbrev found_or : Option OutboxEntry → Exec Db DbError OutboxEntry
found_or none = raise not_found
found_or (some e) = pure e

unfoldable pub get_outbox_entry : ℕ → Exec Db DbError OutboxEntry
unfolding find_entry
get_outbox_entry id = do found ← statement (λ db. (find_entry id db.outbox, db)); found_or found

-- next_attempt <= ?
abbrev pub reached : ℤ → ℕ → Bool
reached (pos t) now = leb t now
reached (negsuc _) now = true

-- next_attempt <= ? AND retry_count < max_retries
abbrev pub is_due : ℕ → OutboxEntry → Bool
is_due now e = reached e.next_attempt now && ltb e.retry_count e.max_retries

-- account_id = ? AND retry_count >= max_retries
abbrev pub is_dead : ℕ → OutboxEntry → Bool
is_dead account e = e.account_id == account && leb e.max_retries e.retry_count

-- ORDER BY queued_at; equal times keep the order of the table
unfoldable pub insert_queued : OutboxEntry → List OutboxEntry → List OutboxEntry
insert_queued e [] = e ∷ []
insert_queued e (f ∷ rows) =
    let rest = insert_queued e rows in
    if leb e.queued_at f.queued_at then e ∷ f ∷ rows else f ∷ rest

unfoldable pub by_queued_at : List OutboxEntry → List OutboxEntry
by_queued_at [] = []
by_queued_at (e ∷ rows) = insert_queued e (by_queued_at rows)

unfoldable pub due_outbox : ℕ → Exec Db DbError (List OutboxEntry)
due_outbox now = statement (λ db. (by_queued_at (keep (is_due now) db.outbox), db))

unfoldable pub dead_letters : ℕ → Exec Db DbError (List OutboxEntry)
dead_letters account = statement (λ db. (by_queued_at (keep (is_dead account) db.outbox), db))

-- DELETE FROM outbox WHERE id = ?
unfoldable pub delete_entry : ℕ → List OutboxEntry → List OutboxEntry
delete_entry id [] = []
delete_entry id (e ∷ rows) =
    let rest = delete_entry id rows in if e.id == id then rest else e ∷ rest

unfoldable pub mark_outbox_sent : ℕ → Exec Db DbError (Unit {0})
mark_outbox_sent id = statement (λ db. (tt, record db { outbox = delete_entry id db.outbox }))

-- the row after a failed attempt
abbrev pub failed_entry : Bytes → ℤ → OutboxEntry → OutboxEntry
failed_entry message next e = record e {
  retry_count = e.retry_count + 1;
  last_error = message;
  next_attempt = next;
}

-- UPDATE outbox SET … WHERE id = ?
unfoldable pub update_entry : ℕ → (OutboxEntry → OutboxEntry) → List OutboxEntry → List OutboxEntry
update_entry id f [] = []
update_entry id f (e ∷ rows) =
    let rest = update_entry id f rows in if e.id == id then f e ∷ rest else e ∷ rest

unfoldable pub mark_outbox_failed : ℕ → Bytes → ℤ → Exec Db DbError (Unit {0})
mark_outbox_failed id message next =
    statement
      (λ db. (tt, record db { outbox = update_entry id (failed_entry message next) db.outbox }))
