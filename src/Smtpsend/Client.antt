-- ===== src/Smtpsend/Client.antt =====
-- internal/mail/smtpsend/outbox.go, SendEntry, and client.go, Send: one attempt to send a stored message. The
-- mail library's reading of the address headers is a parameter, and so is what the credential, the network
-- and the SMTP server do; the state lists the messages that the server has accepted.
pub mod Delivered
pub mod Envelope
use vayu_mail_mobile.Base.{
  is_nil, Bool, true, false, not, Option, none, some, List, [], ◌∷◌, ◌++◌, Bytes, codes, Exec,
  Result, ok, err, ◌>>=◌, ◌>>◌, if◌then◌else◌,
}
use vayu_mail_mobile.Smtpsend.Bcc.{strip_bcc}

pub data SmtpError : Type 0 where
  unreadable_message no_from no_recipients line_too_long no_credential : SmtpError
  unsupported_tls dial_error auth_error err_auth context_done send_error quit_error : SmtpError

-- what the server is handed: MAIL FROM, RCPT TO and the data
pub record Delivery : Type 0 where
  pub sender : Bytes
  pub recipients : List Bytes
  pub wire : Bytes

-- the answer to AUTH: it succeeds, it is refused with a status of 500 or more, or it fails otherwise
pub data AuthAnswer : Type 0 where
  accepted refused failed : AuthAnswer

-- what one attempt meets
pub record Attempt : Type 0 where
  pub has_tls_mode : Bool
  pub dials : Bool
  pub has_auth_client : Bool
  pub auth : AuthAnswer
  pub is_cancelled : Bool
  pub accepts : Delivery → Bool
  pub quits : Bool

abbrev pub Smtp : Type 0 → Type 0
Smtp A = Exec (List Delivery) SmtpError A

-- if !b { return e }
abbrev pub require : Bool → SmtpError → Smtp (Unit {0})
require true e box = (ok tt, box)
require false e box = (err e, box)

abbrev pub returned : {A : Type 0} → Result SmtpError A → Smtp A
returned r box = (r, box)

abbrev pub auth_result : AuthAnswer → Result SmtpError (Unit {0})
auth_result accepted = ok tt
auth_result refused = err err_auth
auth_result failed = err auth_error

-- client.SendMail
abbrev pub send_mail : Attempt → Delivery → Smtp (Unit {0})
send_mail a m box = if a.accepts m then (ok tt, box ++ m ∷ []) else (err send_error, box)

unfoldable pub send : Attempt → Delivery → Smtp (Unit {0})
send a m = do
  require (not (is_nil m.recipients)) no_recipients
  require a.has_tls_mode unsupported_tls
  require a.dials dial_error
  require a.has_auth_client auth_error
  returned (auth_result a.auth)
  require (not a.is_cancelled) context_done
  send_mail a m
  require a.quits quit_error

-- the address lists of a message by the name of the header, where they can be read
abbrev pub Headers : Type 0
Headers = Bytes → Option (List Bytes)

abbrev pub addresses : Option (List Bytes) → List Bytes
addresses none = []
addresses (some list) = list

unfoldable pub recipients_of : Headers → List Bytes
recipients_of header =
    addresses (header (codes "To"))
    ++ (addresses (header (codes "Cc")) ++ addresses (header (codes "Bcc")))

abbrev pub first_sender : Option (List Bytes) → Result SmtpError Bytes
first_sender none = err no_from
first_sender (some []) = err no_from
first_sender (some (a ∷ rest)) = ok a

abbrev pub with_recipients :
    List Bytes → Result SmtpError Bytes → Result SmtpError (Bytes × List Bytes)
with_recipients rs (err e) = err e
with_recipients [] (ok sender) = err no_recipients
with_recipients (r ∷ rs) (ok sender) = ok (sender, r ∷ rs)

abbrev pub envelope_of : Option Headers → Result SmtpError (Bytes × List Bytes)
envelope_of none = err unreadable_message
envelope_of (some header) =
    with_recipients (recipients_of header) (first_sender (header (codes "From")))

abbrev pub stripped : Option Bytes → Result SmtpError Bytes
stripped none = err line_too_long
stripped (some wire) = ok wire

module _ (read_headers : Bytes → Option Headers) where
  unfoldable pub envelope_from_raw : Bytes → Result SmtpError (Bytes × List Bytes)
  unfolding recipients_of
  envelope_from_raw raw = envelope_of (read_headers raw)

  -- `has_credential` says whether the keystore gives the password
  unfoldable pub send_entry : Attempt → (has_credential : Bool) → Bytes → Smtp (Unit {0})
  unfolding envelope_from_raw send
  send_entry a has_credential raw = do
    (sender, recipients) ← returned (envelope_from_raw raw)
    wire ← returned (stripped (strip_bcc raw))
    require has_credential no_credential
    send a (record { sender = sender; recipients = recipients; wire = wire })
