-- ===== src/Chat/Transport/Proper.antt =====
-- internal/chat/transport.go: where the requests go, and what they carry.
use vayu_mail_mobile.Base.{
  contains, Keeps, bind-Keeps, ℕ, ℤ, ◌≡◌, refl, ap, ◌∙◌, append_assoc, ◌⊎◌, take, true, Option,
  none, some, [], ◌∷◌, ◌++◌, Bytes, codes, Exec, ◌>>=◌, ◌>>◌, pure, Bool-cases, inl, inr,
}
use vayu_mail_mobile.Chat.Events.{ChatError}
use vayu_mail_mobile.Chat.Transport.{
  Net, answer, max_talk_resp, Request, Requests, Payload, without_body, credentials, message,
  acknowledged, public_talk_domain, base_url, status_err, key_status_err, guard, no_error, parsed,
  checked, decoded, unless_empty, armored_key, do_request, connect, send, ack, fetch_pub_key,
  open_stream,
}

module _ (N : Net) (domain : Bytes) where
  -- the server answered an earlier /connect with that token
  abbrev pub Granted : Requests → Bytes → Type 0
  Granted log token =
      (before : Requests) × (r : Request) × (after : Requests) × (body : Bytes) × (log
        ≡ before ++ r ∷ after)
      × (r.url ≡ base_url domain ++ codes "/connect")
      × (N.reply before r ≡ answer 200 body)
      × (N.decode_connect (take max_talk_resp body) ≡ some token)

  Granted-append :
      (log ext : Requests) (token : Bytes) → Granted log token → Granted (log ++ ext) token
  Granted-append log ext token (before, r, after, body, e, url, reply, found) = (
    before,
    r,
    after ++ ext,
    body,
    ap (λ l. l ++ ext) e ∙ append_assoc before (r ∷ after) ext,
    url,
    reply,
    found,
  )

  -- what a request may carry: a log-in without a token, or a token that was granted before and an order
  abbrev pub Fits : (Bytes → Payload → Type 0) → Requests → Bytes → Bytes → Payload → Type 0
  Fits Order log path token payload =
      ((path ≡ codes "/connect")
        × (token ≡ [])
        × ((email : Bytes) × (password : Bytes) × (payload ≡ credentials email password)))
      ⊎ (Granted log token × Order path payload)

  -- a request to the API of the domain, which is a public one, behind the requests of `log`
  abbrev pub Proper : (Bytes → Payload → Type 0) → Requests → Request → Type 0
  Proper Order log r =
      (public_talk_domain N.is_ip domain ≡ true)
      × ((path : Bytes) × (r.url ≡ base_url domain ++ path)
          × Fits Order log path r.bearer r.payload)

-- each request of a log is proper behind those before it
pub data Traffic (N : Net) (domain : Bytes) (Order : Bytes → Payload → Type 0)
    : Requests → Type 0 where
  quiet : Traffic N domain Order []
  sent :
      {log : Requests} {r : Request}
      → Traffic N domain Order log
      → Proper N domain Order log r
      → Traffic N domain Order (log ++ r ∷ [])

-- a log that goes on from `start`
module _ (N : Net) (domain : Bytes) (Order : Bytes → Payload → Type 0) (start : Requests) where
  abbrev pub After : Requests → Type 0
  After log = Traffic N domain Order log × ((ext : Requests) × (log ≡ start ++ ext))

  -- a token granted at the start is granted still
  Fits-later :
      (log : Requests) (path token : Bytes) (payload : Payload)
      → After log
      → Fits N domain Order start path token payload
      → Fits N domain Order log path token payload
  Fits-later log path token payload a (inl login) = inl login
  Fits-later log path token payload (_, (ext, e)) (inr (granted, order)) =
      inr (rw e (Granted-append N domain start ext token granted), order)

  pub Granted-later :
      (log : Requests) (token : Bytes)
      → After log
      → Granted N domain start token
      → Granted N domain log token
  Granted-later log token (_, (ext, e)) granted =
      rw e (Granted-append N domain start ext token granted)

  guard-Keeps :
      {A : Type 0} (op : Exec Requests ChatError A)
      → (public_talk_domain N.is_ip domain ≡ true → Keeps After op)
      → Keeps After (guard N domain >> op)
  guard-Keeps op h s g = elim (Bool-cases (public_talk_domain N.is_ip domain)) [
    | inl public ↦ rw public (h public s g)
    | inr private ↦ rw private g
  ]

  do_request-Keeps :
      (path token : Bytes) (payload : Payload)
      → public_talk_domain N.is_ip domain ≡ true
      → Fits N domain Order start path token payload
      → Keeps After (do_request N domain path token payload)
  unfolding do_request
  do_request-Keeps path token payload public fits s g =
      let (traffic, (ext, e)) = g in
      (
        sent traffic (public, (path, refl, Fits-later s path token payload g fits)),
        (
          ext ++ record { url = base_url domain ++ path; bearer = token; payload = payload } ∷ [],
          ap
                (λ l.
                  l
                  ++ record { url = base_url domain ++ path; bearer = token; payload = payload }
                    ∷ [])
                e
              ∙ append_assoc start ext _,
        ),
      )

  no_error-Keeps : (o : Option ChatError) → Keeps After (no_error N o)
  no_error-Keeps none s g = g
  no_error-Keeps (some e) s g = g

  parsed-Keeps : {A : Type 0} (o : Option A) → Keeps After (parsed N o)
  parsed-Keeps none s g = g
  parsed-Keeps (some a) s g = g

  unless_empty-Keeps : (token : Bytes) → Keeps After (unless_empty N token)
  unless_empty-Keeps [] s g = g
  unless_empty-Keeps (c ∷ token) s g = g

  armored_key-Keeps : (key : Bytes × Bytes) → Keeps After (armored_key N key)
  armored_key-Keeps (armored, fingerprint) s g =
      elim (Bool-cases (contains armored (codes "BEGIN PGP PUBLIC KEY BLOCK"))) [
        | inl key ↦ rw key g
        | inr no_key ↦ rw no_key g
      ]

  -- one request, and what is made of the answer
  exchange-Keeps :
      {A : Type 0} (path token : Bytes) (payload : Payload)
      (k : ℕ × Bytes → Exec Requests ChatError A)
      → Fits N domain Order start path token payload
      → ((a : ℕ × Bytes) → Keeps After (k a))
      → Keeps After (guard N domain >> do_request N domain path token payload >>= k)
  exchange-Keeps path token payload k fits h =
      bind-Keeps After (guard N domain >> do_request N domain path token payload) k
        (guard-Keeps (do_request N domain path token payload)
          (λ public. do_request-Keeps path token payload public fits))
        h

  parsed_next-Keeps :
      {A : Type 0} (o : Option ChatError) (r : Option A) → Keeps After (no_error N o >> parsed N r)
  parsed_next-Keeps o r =
      bind-Keeps After (no_error N o) (λ _. parsed N r) (no_error-Keeps o) (λ _. parsed-Keeps r)

  pub connect-Keeps : (email password : Bytes) → Keeps After (connect N domain email password)
  unfolding connect
  connect-Keeps email password =
      exchange-Keeps (codes "/connect") [] (credentials email password) _
        (inl (refl, refl, (email, password, refl)))
        (λ a.
          bind-Keeps After (checked N a.0 >> decoded N N.decode_connect a.1) (unless_empty N)
            (parsed_next-Keeps (status_err a.0) _) unless_empty-Keeps)

  pub send-Keeps :
      (token to ciphertext : Bytes) (ttl : ℤ) (mode : Bytes)
      → Granted N domain start token
      → Order (codes "/send") (message to ciphertext ttl mode)
      → Keeps After (send N domain token to ciphertext ttl mode)
  unfolding send
  send-Keeps token to ciphertext ttl mode granted order =
      exchange-Keeps (codes "/send") token (message to ciphertext ttl mode) _ (inr (granted, order))
        (λ a. parsed_next-Keeps (status_err a.0) _)

  pub ack-Keeps :
      (token id : Bytes)
      → Granted N domain start token
      → Order (codes "/ack") (acknowledged id)
      → Keeps After (ack N domain token id)
  unfolding ack
  ack-Keeps token id granted order =
      exchange-Keeps (codes "/ack") token (acknowledged id) _ (inr (granted, order))
        (λ a. no_error-Keeps (status_err a.0))

  pub fetch_pub_key-Keeps :
      (token email : Bytes)
      → Granted N domain start token
      → Order (codes "/pubkey?email=" ++ N.query_escape email) without_body
      → Keeps After (fetch_pub_key N domain token email)
  unfolding fetch_pub_key
  fetch_pub_key-Keeps token email granted order =
      exchange-Keeps (codes "/pubkey?email=" ++ N.query_escape email) token without_body _
        (inr (granted, order))
        (λ a.
          bind-Keeps After (no_error N (key_status_err a.0) >> decoded N N.decode_pub_key a.1)
            (armored_key N) (parsed_next-Keeps (key_status_err a.0) _) armored_key-Keeps)

  pub open_stream-Keeps :
      (token : Bytes)
      → Granted N domain start token
      → Order (codes "/stream") without_body
      → Keeps After (open_stream N token domain)
  unfolding open_stream
  open_stream-Keeps token granted order =
      exchange-Keeps (codes "/stream") token without_body _ (inr (granted, order)) (λ a.
        bind-Keeps After (checked N a.0) (λ _. pure a.1) (no_error-Keeps (status_err a.0))
          (λ _ s g. g))
