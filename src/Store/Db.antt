-- ===== src/Store/Db.antt =====
-- The rows of the tables that are modelled (internal/store/schema.go), and what the SQL engine does
-- to a statement. `faults` says which of the coming statements the engine refuses: a refused
-- statement returns an error and writes nothing. An empty list stands for a healthy database.
use vayu_mail_mobile.Base.{ℕ, ℤ, Bool, false, List, [], ◌∷◌, Exec, ok, err, if◌then◌else◌, Bytes}

-- one queued outbound message; times are Unix seconds
pub record OutboxEntry : Type 0 where
  pub id : ℕ
  pub account_id : ℕ
  pub raw_message : Bytes
  pub retry_count : ℕ
  pub max_retries : ℕ
  pub next_attempt : ℤ
  pub last_error : Bytes
  pub queued_at : ℕ

pub record Db : Type 0 where
  pub settings : List (Bytes × Bytes)
  pub outbox : List OutboxEntry
  pub faults : List Bool

pub data DbError : Type 0 where
  sql_error not_found : DbError

abbrev pub rest_faults : List Bool → List Bool
rest_faults [] = []
rest_faults (b ∷ bs) = bs

abbrev pub next_fault : List Bool → Bool
next_fault [] = false
next_fault (b ∷ bs) = b

-- one statement that reads or rewrites the tables
unfoldable pub statement : {A : Type 0} → (Db → A × Db) → Exec Db DbError A
statement act db =
    let db' = record db { faults = rest_faults db.faults } in
    let (a, done) = act db' in if next_fault db.faults then (err sql_error, db') else (ok a, done)
