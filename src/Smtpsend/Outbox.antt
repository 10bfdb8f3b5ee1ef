-- ===== src/Smtpsend/Outbox.antt =====
-- internal/mail/smtpsend/outbox.go, `ProcessOutbox`: one pass over the queue for one account.
pub mod Settle
pub mod Selection
pub mod Pass
pub mod Retries
use vayu_mail_mobile.Base.{
  ℕ, ◌+◌, ◌-◌, ◌*◌, ◌/◌, ◌%◌, ◌^◌, Bool, true, false, Option, none, some, List, [], ◌∷◌, ◌++◌, ℤ,
  pos, negsuc, of_bits, int64_mod, Bytes, Exec, Result, ok, err, wrap, pure, raise, ◌>>=◌, ◌>>◌,
  ltb, ◌==◌, not, if◌then◌else◌,
}
use vayu_mail_mobile.Store.Db.{Db, DbError, OutboxEntry}
use vayu_mail_mobile.Store.Outbox.{due_outbox, mark_outbox_sent, mark_outbox_failed}

abbrev pub second : ℕ
second = 10 ^ 9

-- time.Minute, in nanoseconds
abbrev pub retry_base : ℕ
retry_base = 60 * second

-- `retryBase << uint(n)` in an int64
unfoldable pub backoff : ℕ → ℤ
backoff n = of_bits (retry_base * 2 ^ n % int64_mod)

-- `now.Add(d).Unix()`: the seconds, rounded down
abbrev pub unix_after : ℕ → ℤ → ℤ
unix_after now (pos d) = pos ((now + d) / second)
unix_after now (negsuc d) =
    if ltb d now then pos ((now - d - 1) / second) else negsuc ((d - now) / second)

-- What happens around a pass. `outcome` is what `SendEntry` returns for an entry: nothing, or the
-- text of its error. `stopped` says that the context is done when the entry's turn comes, and
-- `failed_at` when a failure is recorded.
pub record World : Type 0 where
  pub account : ℕ
  pub started_at : ℕ
  pub outcome : OutboxEntry → Option Bytes
  pub stopped : OutboxEntry → Bool
  pub failed_at : OutboxEntry → ℕ

pub data PassError : Type 0 where
  store_error : DbError → PassError
  context_done : PassError

-- the database, and what was reported through `onResult`
pub record Run : Type 0 where
  pub db : Db
  pub reports : List (ℕ × Option Bytes)

abbrev pub on_db : {A : Type 0} → Exec Db DbError A → Exec Run PassError A
on_db m s = (wrap store_error (m s.db).0, record s { db = (m s.db).1 })

abbrev pub report : ℕ → Option Bytes → Exec Run PassError (Unit {0})
report id result s = (ok tt, record s { reports = s.reports ++ (id, result) ∷ [] })

unfoldable pub record_outcome : World → OutboxEntry → Option Bytes → Exec Run PassError (Unit {0})
unfolding backoff
record_outcome w e none = on_db (mark_outbox_sent e.id)
record_outcome w e (some message) =
    on_db (mark_outbox_failed e.id message (unix_after (w.failed_at e) (backoff e.retry_count)))

-- the body of the loop behind the test of the account
unfoldable pub process_entry : World → OutboxEntry → Exec Run PassError (Unit {0})
unfolding record_outcome
process_entry w e =
    if w.stopped e
    then raise context_done
    else (do record_outcome w e (w.outcome e); report e.id (w.outcome e))

unfoldable pub process_entries : World → List OutboxEntry → Exec Run PassError (Unit {0})
process_entries w [] = pure tt
process_entries w (e ∷ entries) =
    let rest = process_entries w entries in
    if e.account_id == w.account then process_entry w e >> rest else rest

unfoldable pub process_outbox : World → Exec Run PassError (Unit {0})
unfolding process_entries
process_outbox w = do
  entries ← on_db (due_outbox (w.started_at / second))
  process_entries w entries
