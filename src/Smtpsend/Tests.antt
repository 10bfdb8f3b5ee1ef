-- ===== src/Smtpsend/Tests.antt =====
-- The outbox passes and the wire copy at concrete inputs.
use vayu_mail_mobile.Base.{
  true, List, err, ◌+◌, ◌*◌, ◌≡◌, ◌≤◌, refl, false, Option, none, some, [], ◌∷◌, Bytes, codes, ok,
  keep, arith, eq_bytes, lower, ◌==◌, if◌then◌else◌,
}
use vayu_mail_mobile.Store.Db.{OutboxEntry}
use vayu_mail_mobile.Store.Outbox.{new_entry, is_due, by_queued_at}
use vayu_mail_mobile.Smtpsend.Outbox.{World, Run, second, process_outbox}
use vayu_mail_mobile.Smtpsend.Outbox.Settle.{settle}
use vayu_mail_mobile.Smtpsend.Outbox.Pass.{with_outbox, is_turn, reports_of, process_outbox_settles}
use vayu_mail_mobile.Smtpsend.Outbox.Retries.{report_count, pass_all, retries_bounded}
use vayu_mail_mobile.Base.Bufio.{raw_lines, drop_cr}
use vayu_mail_mobile.Smtpsend.Bcc.{strip_bcc, is_bcc}
use vayu_mail_mobile.Smtpsend.Client.{
  Attempt, accepted, quit_error, send_entry, envelope_from_raw, recipients_of, send,
}
use vayu_mail_mobile.Smtpsend.Client.Delivered.{Outcome, send_entry-Handed}

-- a server that refuses every message but the second
abbrev outcome_of : OutboxEntry → Option Bytes
outcome_of e = if e.id == 2 then none else some (codes "refused")

abbrev world : World
world = record {
  account = 7;
  started_at = 100 * second;
  outcome = outcome_of;
  stopped = λ e. false;
  failed_at = λ e. 101 * second;
}

abbrev start : Run
start = record {
  db = record {
    settings = [];
    outbox = new_entry 1 7 (codes "b") 90 ∷ new_entry 2 7 (codes "a") 80 ∷ [];
    faults = [];
  };
  reports = [];
}

process_outbox_settles_example : process_outbox world start ≡ (
  ok tt,
  record (with_outbox start (settle world (is_turn world) start.db.outbox)) {
    reports = reports_of world (by_queued_at (keep (is_due 100) start.db.outbox));
  },
)
process_outbox_settles_example =
    process_outbox_settles world start refl (((λ e. omega arith), tt), (tt, tt)) (refl, (refl, tt))

retries_bounded_example : report_count 1 (pass_all (world ∷ world ∷ []) start).reports ≤ 0 + 5
retries_bounded_example =
    retries_bounded (world ∷ world ∷ []) 1 start refl (((λ e. omega arith), tt), (tt, tt))
      ((λ e. refl), ((λ e. refl), tt))

abbrev message : Bytes
message = codes "To: a\r\nBCC: b,\r\n c\r\nSubject: s\r\n\r\nbcc: text"

-- what the mail library reads of the message
abbrev headers : Bytes → Option (List Bytes)
headers name =
    if eq_bytes name (codes "From")
    then some (codes "me" ∷ [])
    else if eq_bytes name (codes "To")
    then some (codes "a" ∷ [])
    else if eq_bytes name (codes "Bcc")
    then some (codes "b" ∷ codes "c" ∷ [])
    else none

abbrev read_headers : Bytes → Option (Bytes → Option (List Bytes))
read_headers raw = some headers

-- the server takes the message, and the connection is lost before the answer to QUIT
abbrev lost : Attempt
lost = record {
  has_tls_mode = true;
  dials = true;
  has_auth_client = true;
  auth = accepted;
  is_cancelled = false;
  accepts = λ m. true;
  quits = false;
}

send_entry-Handed_example : Outcome read_headers lost true message []
unfolding raw_lines
send_entry-Handed_example = send_entry-Handed read_headers lost true message [] (omega arith)

sent_and_failed : send_entry read_headers lost true message [] ≡ (
  err quit_error,
  record {
    sender = codes "me";
    recipients = codes "a" ∷ codes "b" ∷ codes "c" ∷ [];
    wire = codes "To: a\r\nSubject: s\r\n\r\nbcc: text\r\n";
  }
      ∷ [],
)
unfolding send_entry envelope_from_raw recipients_of send strip_bcc raw_lines drop_cr is_bcc
    eq_bytes lower
sent_and_failed = refl

folded_bcc :
    strip_bcc (codes "To: a\r\nBCC: b,\r\n c\r\nSubject: s\r\n\r\nbcc: text")
    ≡ some (codes "To: a\r\nSubject: s\r\n\r\nbcc: text\r\n")
unfolding strip_bcc raw_lines drop_cr is_bcc eq_bytes lower
folded_bcc = refl
