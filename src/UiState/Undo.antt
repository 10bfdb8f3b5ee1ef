-- ===== src/UiState/Undo.antt =====
-- ui/state/actions.go: a draft is queued, and for ten seconds the user may take it back. The message is
-- built elsewhere, and may fail to be; the notices are the snackbar texts.
pub mod Window
use vayu_mail_mobile.Base.{ℕ, Option, none, some, Bytes, Result, ok, err}
use vayu_mail_mobile.Store.Db.{Db, DbError}
use vayu_mail_mobile.Store.Outbox.{enqueue_outbox, mark_outbox_sent}

pub data Notice : Type 0 where
  could_not_build could_not_queue could_not_recall send_cancelled : Notice

-- the entry whose window is armed, or the notice
pub data Queued : Type 0 where
  armed : (outbox_id : ℕ) → Queued
  failed : Notice → Queued

abbrev pub queued : Result DbError ℕ → Queued
queued (ok id) = armed id
queued (err e) = failed could_not_queue

unfoldable pub enqueue_draft : ℕ → Option Bytes → ℕ → Db → Queued × Db
unfolding enqueue_outbox
enqueue_draft account none now db = (failed could_not_build, db)
enqueue_draft account (some raw) now db =
    let r = enqueue_outbox account raw now db in (queued r.0, r.1)

abbrev pub recalled : Result DbError (Unit {0}) → Notice
recalled (ok u) = send_cancelled
recalled (err e) = could_not_recall

-- the undo of `armUndoSend`
unfoldable pub undo : ℕ → Db → Notice × Db
unfolding mark_outbox_sent
undo id db = let r = mark_outbox_sent id db in (recalled r.0, r.1)
