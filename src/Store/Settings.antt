-- ===== src/Store/Settings.antt =====
-- internal/store/settings.go: the settings table, a map from keys to texts.
use vayu_mail_mobile.Base.{
  ◌≡◌, refl, false, List, [], ◌∷◌, Exec, ok, if◌then◌else◌, arith, Bytes, codes, eq_bytes,
  eq_bytes_iff,
}
use vayu_mail_mobile.Store.Db.{Db, DbError, statement, rest_faults, next_fault}

abbrev pub applock_failures : Bytes
applock_failures = codes "applock_failures"

abbrev pub applock_locked_until : Bytes
applock_locked_until = codes "applock_locked_until"

abbrev pub applock_timeout : Bytes
applock_timeout = codes "applock_timeout"

abbrev pub notifications : Bytes
notifications = codes "notifications"

abbrev pub notify_preview : Bytes
notify_preview = codes "notify_preview"

abbrev pub biometric_unlock : Bytes
biometric_unlock = codes "biometric_unlock"

abbrev pub reduce_motion : Bytes
reduce_motion = codes "reduce_motion"

abbrev pub rich_html : Bytes
rich_html = codes "rich_html"

-- SELECT value FROM settings WHERE key = ?; no row reads as ""
unfoldable pub value_of : Bytes → List (Bytes × Bytes) → Bytes
value_of k [] = []
value_of k ((j, v) ∷ rows) = if eq_bytes j k then v else value_of k rows

-- DELETE FROM settings WHERE key = ?
pub delete_key : Bytes → List (Bytes × Bytes) → List (Bytes × Bytes)
delete_key k [] = []
delete_key k ((j, v) ∷ rows) =
    let rest = delete_key k rows in if eq_bytes j k then rest else (j, v) ∷ rest

-- INSERT … ON CONFLICT(key) DO UPDATE
pub upsert_key : Bytes → Bytes → List (Bytes × Bytes) → List (Bytes × Bytes)
upsert_key k v [] = (k, v) ∷ []
upsert_key k v ((j, w) ∷ rows) =
    let rest = upsert_key k v rows in if eq_bytes j k then (j, v) ∷ rows else (j, w) ∷ rest

-- storing "" removes the row
unfoldable pub put_key : Bytes → Bytes → List (Bytes × Bytes) → List (Bytes × Bytes)
put_key k [] rows = delete_key k rows
put_key k (c ∷ v) rows = upsert_key k (c ∷ v) rows

unfoldable pub get_setting : Bytes → Exec Db DbError Bytes
get_setting k = statement (λ db. (value_of k db.settings, db))

unfoldable pub set_setting : Bytes → Bytes → Exec Db DbError (Unit {0})
set_setting k v = statement (λ db. (tt, record db { settings = put_key k v db.settings }))

value_of-delete_key :
    (k j : Bytes) (rows : List (Bytes × Bytes))
    → value_of j (delete_key k rows) ≡ (if eq_bytes k j then [] else value_of j rows)
unfolding value_of delete_key
value_of-delete_key k j [] = ground arith
value_of-delete_key k j ((i, v) ∷ rows) =
    ground
      (arith, value_of-delete_key k j rows, eq_bytes_iff i k, eq_bytes_iff i j, eq_bytes_iff k j)

value_of-upsert_key :
    (k j v : Bytes) (rows : List (Bytes × Bytes))
    → value_of j (upsert_key k v rows) ≡ (if eq_bytes k j then v else value_of j rows)
unfolding value_of upsert_key
value_of-upsert_key k j v [] = refl
value_of-upsert_key k j v ((i, w) ∷ rows) =
    ground
      (arith, value_of-upsert_key k j v rows, eq_bytes_iff i k, eq_bytes_iff i j, eq_bytes_iff k j)

pub value_of-put_key :
    (k j v : Bytes) (rows : List (Bytes × Bytes))
    → value_of j (put_key k v rows) ≡ (if eq_bytes k j then v else value_of j rows)
unfolding put_key
value_of-put_key k j [] rows = value_of-delete_key k j rows
value_of-put_key k j (c ∷ v) rows = value_of-upsert_key k j (c ∷ v) rows

-- Reading any key after a write that the engine accepted, with no further fault, gives what was
-- written under the key and leaves every other key alone; a refused write changes no key.
pub get-set_setting :
    (k j v : Bytes) (db : Db)
    → next_fault (rest_faults db.faults) ≡ false
    → (get_setting j (set_setting k v db).1).0
      ≡ ok (
          if next_fault db.faults
          then value_of j db.settings
          else if eq_bytes k j
          then v
          else value_of j db.settings)
unfolding get_setting set_setting statement
get-set_setting k j v db h = ground (arith, value_of-put_key k j v db.settings)

-- On a healthy database the two calls are a read and a write of the map.
pub get_setting-healthy :
    (k : Bytes) (db : Db) → db.faults ≡ [] → get_setting k db ≡ (ok (value_of k db.settings), db)
unfolding get_setting statement
get_setting-healthy k db h = ground arith

pub set_setting-healthy :
    (k v : Bytes) (db : Db)
    → db.faults ≡ []
    → set_setting k v db ≡ (ok tt, record db { settings = put_key k v db.settings })
unfolding set_setting statement
set_setting-healthy k v db h = ground arith
