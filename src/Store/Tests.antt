-- ===== src/Store/Tests.antt =====
-- The settings and outbox tables at concrete inputs.
use vayu_mail_mobile.Base.{[], ◌∷◌, codes}
use vayu_mail_mobile.Store.Db.{Db}
use vayu_mail_mobile.Store.Outbox.{new_entry}

abbrev queue : Db
queue = record {
  settings = [];
  outbox = new_entry 1 7 (codes "b") 90 ∷ new_entry 2 7 (codes "a") 80 ∷ [];
  faults = [];
}
