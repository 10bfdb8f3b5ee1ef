-- ===== src/Smtpsend/Client/Delivered.antt =====
-- internal/mail/smtpsend: what an attempt that succeeds, or fails, has handed to the server.
use vayu_mail_mobile.Base.{
  is_nil, ◌≡◌, refl, ap, ◌⊎◌, inl, inr, Bool, true, false, not, Option, some, List, [], ◌∷◌, ◌++◌,
  Bytes, ◌<◌, length, keep, All, Result, ok, err, ◌>>◌, Bool-cases,
}
use vayu_mail_mobile.Base.Bufio.{raw_lines, lines}
use vayu_mail_mobile.Smtpsend.Bcc.{strip_bcc, max_line}
use vayu_mail_mobile.Smtpsend.Bcc.Fields.{
  header_of, body_of, fields, join_fields, is_bcc_field, strip_bcc-fields,
}
use vayu_mail_mobile.Smtpsend.Client.Envelope.{IsEnvelope, envelope_of-IsEnvelope}
use vayu_mail_mobile.Smtpsend.Client.{
  SmtpError, quit_error, no_recipients, unsupported_tls, dial_error, auth_error, context_done,
  send_error, no_credential, Delivery, Attempt, Smtp, require, returned, auth_result, send_mail,
  send, Headers, envelope_from_raw, send_entry,
}

abbrev pub after_quit : Bool → Result SmtpError (Unit {0})
after_quit true = ok tt
after_quit false = err quit_error

-- an attempt fails and hands nothing over, or it hands over one message, and fails only at the end
Ends : Attempt → Delivery → List Delivery → Result SmtpError (Unit {0}) × List Delivery → Type 0
Ends a m box r =
    ((r.1 ≡ box) × (e : SmtpError) × (r.0 ≡ err e))
    ⊎ ((r.1 ≡ box ++ m ∷ []) × (r.0 ≡ after_quit a.quits))

module _ (a : Attempt) (m : Delivery) (box : List Delivery) where
  require-Ends :
      (b : Bool) (e : SmtpError) (k : Smtp (Unit {0}))
      → Ends a m box (k box)
      → Ends a m box ((require b e >> k) box)
  unfolding Ends
  require-Ends true e k h = h
  require-Ends false e k h = inl (refl, e, refl)

  returned-Ends :
      (r : Result SmtpError (Unit {0})) (k : Smtp (Unit {0}))
      → Ends a m box (k box)
      → Ends a m box ((returned r >> k) box)
  unfolding Ends
  returned-Ends (ok u) k h = h
  returned-Ends (err e) k h = inl (refl, e, refl)

  quit-after_quit :
      (q : Bool) (box' : List Delivery) → require q quit_error box' ≡ (after_quit q, box')
  quit-after_quit true box' = refl
  quit-after_quit false box' = refl

  send_mail-Ends : Ends a m box ((send_mail a m >> require a.quits quit_error) box)
  unfolding Ends
  send_mail-Ends = elim (Bool-cases (a.accepts m)) [
    | inl taken ↦ rw taken (rw (quit-after_quit a.quits (box ++ m ∷ [])) (inr (refl, refl)))
    | inr turned_down ↦ rw turned_down (inl (refl, send_error, refl))
  ]

  send-Ends : Ends a m box (send a m box)
  unfolding send
  send-Ends = require-Ends (not (is_nil m.recipients)) no_recipients _ (
      require-Ends a.has_tls_mode unsupported_tls _ (
        require-Ends a.dials dial_error _ (
          require-Ends a.has_auth_client auth_error _ (
            returned-Ends (auth_result a.auth) _
              (require-Ends (not a.is_cancelled) context_done _ send_mail-Ends)))))

-- the lines of a message without its Bcc fields
abbrev pub blind : Bytes → List Bytes
blind raw =
    join_fields (keep (λ f. not (is_bcc_field f)) (fields (header_of (lines raw))))
    ++ body_of (lines raw)

module _ (read_headers : Bytes → Option Headers) (a : Attempt) (has_credential : Bool) (raw : Bytes)
    (box : List Delivery) where
  -- the message that an attempt hands over
  abbrev pub Handed : Delivery → Type 0
  Handed m = IsEnvelope (read_headers raw) m.sender m.recipients × (lines m.wire ≡ blind raw)

  abbrev pub attempted : Result SmtpError (Unit {0}) × List Delivery
  attempted = send_entry read_headers a has_credential raw box

  unreadable :
      (e : SmtpError) → envelope_from_raw read_headers raw ≡ err e → attempted ≡ (err e, box)
  unfolding send_entry
  unreadable e h = rw h refl

  readable :
      (sender wire : Bytes) (recipients : List Bytes)
      → envelope_from_raw read_headers raw ≡ ok (sender, recipients)
      → strip_bcc raw ≡ some wire
      → Ends a (record { sender = sender; recipients = recipients; wire = wire }) box attempted
  unfolding send_entry
  readable sender wire recipients h s =
      let m : Delivery = record { sender = sender; recipients = recipients; wire = wire } in
      rw h (rw s (require-Ends a m box has_credential no_credential (send a m) (send-Ends a m box)))

  envelope_from_raw-IsEnvelope :
      (sender : Bytes) (recipients : List Bytes)
      → envelope_from_raw read_headers raw ≡ ok (sender, recipients)
      → IsEnvelope (read_headers raw) sender recipients
  unfolding envelope_from_raw
  envelope_from_raw-IsEnvelope sender recipients h =
      envelope_of-IsEnvelope (read_headers raw) sender recipients h

  -- an attempt leaves the server without a message and fails, or it hands one over
  abbrev pub Outcome : Type 0
  Outcome =
      ((attempted.1 ≡ box) × (e : SmtpError) × (attempted.0 ≡ err e))
      ⊎ ((m : Delivery) × Handed m
          × (attempted.1 ≡ box ++ m ∷ [])
          × (attempted.0 ≡ after_quit a.quits))

  by_envelope :
      (r : Result SmtpError (Bytes × List Bytes))
      → All (λ l. length l < max_line) (raw_lines raw)
      → envelope_from_raw read_headers raw ≡ r
      → Outcome
  unfolding Ends
  by_envelope (err e) short h =
      let left = unreadable e h in inl (ap (λ x. x.1) left, e, ap (λ x. x.0) left)
  by_envelope (ok (sender, recipients)) short h =
      let (wire, s, blinded) = strip_bcc-fields raw short in
      let m : Delivery = record { sender = sender; recipients = recipients; wire = wire } in
      elim (readable sender wire recipients h s) [
        | inl nothing ↦ inl nothing
        | inr (handed, result) ↦
            inr (m, (envelope_from_raw-IsEnvelope sender recipients h, blinded), handed, result)
      ]

  -- Of a message whose lines are shorter than a mebibyte, whatever the server answers: `send_entry` either
  -- fails and the server has accepted nothing; or the server has accepted one message, from the first
  -- address of From to exactly the addresses in those of To, Cc and Bcc that can be read, at least one, with the
  -- lines of the stored message without its Bcc fields. In that case it succeeds when the closing QUIT does, and fails when QUIT fails,
  -- although the message is accepted.
  pub send_entry-Handed : All (λ l. length l < max_line) (raw_lines raw) → Outcome
  send_entry-Handed short = by_envelope (envelope_from_raw read_headers raw) short refl
