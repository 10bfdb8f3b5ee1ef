-- ===== src/Chat/Transport/Login.antt =====
-- internal/chat/transport.go, Connect: a log-in that succeeds gives a token that the server has granted.
use vayu_mail_mobile.Base.{
  ℕ, ◌≡◌, refl, ap, ◌∙◌, take, arith, Option, none, some, [], ◌∷◌, ◌++◌, Bytes, codes, Result, ok,
  err, continue, ◌>>=◌, ◌>>◌, Bool-cases, inl, inr,
}
use vayu_mail_mobile.Chat.Events.{ChatError, talk_error}
use vayu_mail_mobile.Chat.Transport.{
  Net, Reply, unreachable, answer, answer_of, max_talk_resp, Request, Requests, credentials,
  public_talk_domain, base_url, status_err, no_error, parsed, checked, decoded, unless_empty,
  do_request, connect,
}
use vayu_mail_mobile.Chat.Transport.Proper.{Granted}

module _ (N : Net) (domain email password : Bytes) where
  ok_status : (status : ℕ) → status_err status ≡ none → status ≡ 200
  ok_status status h = ground arith

  abbrev finished : Option ChatError → Option Bytes → Requests → Result ChatError Bytes × Requests
  finished o d = no_error N o >> parsed N d >>= unless_empty N

  finished_lem :
      (o : Option ChatError) (d : Option Bytes) (log : Requests) (token : Bytes)
      → (finished o d log).0 ≡ ok token
      → (o ≡ none) × (d ≡ some token) × ((finished o d log).1 ≡ log)
  finished_lem (some e) d log token h = cc
  finished_lem none none log token h = cc
  finished_lem none (some []) log token h = cc
  finished_lem none (some (c ∷ s)) log token h = (refl, cc, refl)

  abbrev login : Request
  login = record {
    url = base_url domain ++ codes "/connect";
    bearer = [];
    payload = credentials email password;
  }

  abbrev answered : Reply → Requests → Result ChatError Bytes × Requests
  answered reply log =
      continue (answer_of reply) log
        (λ a. checked N a.0 >> decoded N N.decode_connect a.1 >>= unless_empty N)

  answered-Granted :
      (reply : Reply) (log : Requests) (token : Bytes)
      → N.reply log login ≡ reply
      → (answered reply (log ++ login ∷ [])).0 ≡ ok token
      → Granted N domain (answered reply (log ++ login ∷ [])).1 token
  answered-Granted unreachable log token e h = cc
  answered-Granted (answer status body) log token e h =
      let d = N.decode_connect (take max_talk_resp body) in
      let (o, found, same) = finished_lem (status_err status) d (log ++ login ∷ []) token h in
      rw same
        (log, login, [], body, refl, refl, e ∙ ap (λ s. answer s body) (ok_status status o), found)

  pub connect-Granted :
      (log : Requests) (token : Bytes)
      → (connect N domain email password log).0 ≡ ok token
      → Granted N domain (connect N domain email password log).1 token
  unfolding connect do_request
  connect-Granted log token h = elim (Bool-cases (public_talk_domain N.is_ip domain)) [
    | inl public ↦ rw public (answered-Granted (N.reply log login) log token refl (rw public at h))
    | inr private ↦ let no_way : err talk_error ≡ ok token = rw private at h in cc
  ]
