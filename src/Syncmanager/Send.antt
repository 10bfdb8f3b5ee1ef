-- ===== src/Syncmanager/Send.antt =====
-- internal/syncmanager/exec.go, execSend: one entry of the outbox is sent on the command loop. The table of
-- accounts is a parameter, and so is what SendEntry returns; filing the message into Sent is left out, since
-- its failure is only logged.
pub mod Twice
use vayu_mail_mobile.Base.{
  ℕ, Bool, Option, none, some, Bytes, Exec, ok, err, wrap, pure, raise, ◌>>=◌, ◌>>◌, if◌then◌else◌,
}
use vayu_mail_mobile.Store.Db.{OutboxEntry}
use vayu_mail_mobile.Store.Outbox.{get_outbox_entry}
use vayu_mail_mobile.Smtpsend.Outbox.{World, Run, PassError, on_db, report, record_outcome}

pub data SendError : Type 0 where
  of_store : PassError → SendError
  unknown_account : SendError
  send_failed : Bytes → SendError

abbrev lifted : {A : Type 0} → Exec Run PassError A → Exec Run SendError A
lifted m s = (wrap of_store (m s).0, (m s).1)

abbrev find_account : (ℕ → Bool) → ℕ → Exec Run SendError (Unit {0})
find_account known id s = if known id then (ok tt, s) else (err unknown_account, s)

abbrev send_result : Option Bytes → Exec Run SendError (Unit {0})
send_result none = pure tt
send_result (some message) = raise (send_failed message)

module _ (w : World) (known : ℕ → Bool) where
  unfoldable pub send_found : OutboxEntry → Exec Run SendError (Unit {0})
  unfolding record_outcome
  send_found e =
      find_account known e.account_id
      >> lifted (record_outcome w e (w.outcome e))
      >> lifted (report e.id (w.outcome e))
      >> send_result (w.outcome e)

  unfoldable pub exec_send : ℕ → Exec Run SendError (Unit {0})
  unfolding get_outbox_entry send_found
  exec_send id = lifted (on_db (get_outbox_entry id)) >>= send_found
