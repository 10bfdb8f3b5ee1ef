-- ===== src/Chat/Manager/Session.antt =====
-- internal/chat/manager.go, ensureToken and withToken: the tokens with which the engine makes its requests.
use vayu_mail_mobile.Base.{
  ◌≡◌, ◌⊎◌, ◌++◌, refl, sym, true, false, codes, Memᴰ, append-nil, continue, eq_bytes_refl, Keeps,
  ℕ, pos, ◌/◌, Option, none, some, List, [], Bytes, eq_bytes, Exec, Result, ok, err, ◌>>=◌,
  Bool-cases, inl, inr,
}
use vayu_mail_mobile.Chat.Events.{ChatError, talk_auth, credential_error}
use vayu_mail_mobile.Chat.Transport.{
  Requests, Payload, message, acknowledged, without_body, connect,
}
use vayu_mail_mobile.Chat.Transport.Login.{connect-Granted}
use vayu_mail_mobile.Chat.Transport.Proper.{Granted, Granted-later, After, Traffic, connect-Keeps}
use vayu_mail_mobile.Chat.Manager.{
  Config, Manager, on_wire, after_refusal, with_token, given, ensure_token, second,
}
use vayu_mail_mobile.Chat.Manager.Calls.{Call, call_send, call_ack, call_verify_peer}

-- what a call of the engine has ordered: to send its text, encrypted, to acknowledge its message, or to
-- fetch the key of its peer; the stream is opened unasked
module _ {K : Type 0} (C : Config K) (calls : List Call) where
  abbrev IsSend : Bytes → Payload → Type 0
  IsSend path payload =
      (peer : Bytes) × (plaintext : Bytes) × (burn : ℕ) × (mode : Bytes) × (keys : K)
      × (ciphertext : Bytes) × (path ≡ codes "/send")
      × Memᴰ (call_send peer plaintext burn mode) calls
      × (C.encrypt keys plaintext peer C.self_email ≡ some ciphertext)
      × (payload ≡ message peer (C.encode_base64 ciphertext) (pos (burn / second)) mode)

  abbrev IsAck : Bytes → Payload → Type 0
  IsAck path payload =
      (id : Bytes) × (path ≡ codes "/ack") × Memᴰ (call_ack id) calls × (payload ≡ acknowledged id)

  abbrev IsQuery : Bytes → Payload → Type 0
  IsQuery path payload =
      (peer : Bytes) × (path ≡ codes "/pubkey?email=" ++ C.net.query_escape peer)
      × Memᴰ (call_verify_peer peer) calls
      × (payload ≡ without_body)

  abbrev pub Order : Bytes → Payload → Type 0
  Order path payload =
      IsSend path payload
      ⊎ (IsAck path payload
          ⊎ (IsQuery path payload ⊎ ((path ≡ codes "/stream") × (payload ≡ without_body))))

module _ {K : Type 0} (C : Config K) (calls : List Call) where
  abbrev Login : Requests → Bytes → Type 0
  Login = Granted C.net C.domain

  abbrev Later : Requests → Requests → Type 0
  Later = After C.net C.domain (Order C calls)

  -- the requests so far are proper, and the token that is kept was granted
  abbrev pub IsTidy : Manager K → Type 0
  IsTidy m =
      Traffic C.net C.domain (Order C calls) m.requests
      × ((m.token ≡ []) ⊎ Login m.requests m.token)

  kept_token :
      (start log : Requests) (token : Bytes)
      → Later start log
      → (token ≡ []) ⊎ Login start token
      → (token ≡ []) ⊎ Login log token
  kept_token start log token a (inl empty) = inl empty
  kept_token start log token a (inr granted) =
      inr (Granted-later C.net C.domain (Order C calls) start log token a granted)

  started : (log : Requests) → Traffic C.net C.domain (Order C calls) log → Later log log
  started log traffic = (traffic, ([], sym (append-nil log)))

  after_refusal-Proper :
      {A : Type 0} (r : Result ChatError A × Manager K) → IsTidy r.1 → IsTidy (after_refusal C r).1
  after_refusal-Proper (err talk_auth, m) h = (h.0, inl refl)
  after_refusal-Proper (r, m) h = h

  with_token-Proper :
      {A : Type 0} (op : Exec Requests ChatError A) (m : Manager K)
      → Keeps (Later m.requests) op
      → IsTidy m
      → IsTidy (with_token C op m).1
  with_token-Proper op m h g =
      let a = h m.requests (started m.requests g.0) in
      after_refusal-Proper (on_wire C op m)
        (a.0, kept_token m.requests (op m.requests).1 m.token a g.1)

  pub given-Proper : {A : Type 0} (e : ChatError) (o : Option A) → Keeps IsTidy (given C e o)
  given-Proper e none m g = g
  given-Proper e (some a) m g = g

  abbrev keep_token : Bytes → Exec (Manager K) ChatError Bytes
  keep_token token m = (ok token, record m { token = token })

  logged_in-Proper :
      (r : Result ChatError Bytes) (log : Requests) (m : Manager K)
      → IsTidy m
      → Later m.requests log
      → ((token : Bytes) → r ≡ ok token → Login log token)
      → IsTidy (continue r (record m { requests = log }) keep_token).1
  logged_in-Proper (ok token) log m g a k = (a.0, inr (k token refl))
  logged_in-Proper (err e) log m g a k = (a.0, kept_token m.requests log m.token a g.1)

  logged_in-Login :
      (r : Result ChatError Bytes) (log : Requests) (m : Manager K) (token : Bytes)
      → ((token : Bytes) → r ≡ ok token → Login log token)
      → (continue r (record m { requests = log }) keep_token).0 ≡ ok token
      → Login (continue r (record m { requests = log }) keep_token).1.requests token
  logged_in-Login (ok t) log m token k h = k token h
  logged_in-Login (err e) log m token k h = cc

  abbrev log_in : Option Bytes → Exec (Manager K) ChatError Bytes
  log_in o =
      given C credential_error o
      >>= (λ password. on_wire C (connect C.net C.domain C.self_email password))
      >>= keep_token

  log_in-Proper : (o : Option Bytes) (m : Manager K) → IsTidy m → IsTidy (log_in o m).1
  log_in-Proper none m g = g
  log_in-Proper (some password) m g =
      let r = connect C.net C.domain C.self_email password m.requests in
      logged_in-Proper r.0 r.1 m g
        (connect-Keeps C.net C.domain (Order C calls) m.requests C.self_email password m.requests
          (started m.requests g.0))
        (connect-Granted C.net C.domain C.self_email password m.requests)

  log_in-Login :
      (o : Option Bytes) (m : Manager K) (token : Bytes)
      → (log_in o m).0 ≡ ok token
      → Login (log_in o m).1.requests token
  log_in-Login none m token h = cc
  log_in-Login (some password) m token h =
      let r = connect C.net C.domain C.self_email password m.requests in
      logged_in-Login r.0 r.1 m token
        (connect-Granted C.net C.domain C.self_email password m.requests) h

  ensure_token-Proper : Keeps IsTidy (ensure_token C)
  unfolding ensure_token
  ensure_token-Proper m g = elim (Bool-cases (eq_bytes m.token [])) [
    | inl no_token ↦ rw no_token (log_in-Proper (C.credential m.requests) m g)
    | inr token ↦ rw token g
  ]

  held_token :
      (m : Manager K) (token : Bytes)
      → eq_bytes m.token [] ≡ false
      → m.token ≡ token
      → (m.token ≡ []) ⊎ Login m.requests m.token
      → Login m.requests token
  held_token m token some_token same (inl empty) =
      let none_kept : eq_bytes m.token [] ≡ true = rw empty (eq_bytes_refl []) in cc
  held_token m token some_token same (inr granted) = rw⁻¹ same granted

  ensure_token-Login :
      (m : Manager K) (token : Bytes)
      → IsTidy m
      → (ensure_token C m).0 ≡ ok token
      → Login (ensure_token C m).1.requests token
  unfolding ensure_token
  ensure_token-Login m token g h = elim (Bool-cases (eq_bytes m.token [])) [
    | inl no_token ↦ rw no_token (log_in-Login (C.credential m.requests) m token (rw no_token at h))
    | inr some_token ↦
        let e : ok m.token ≡ ok token = rw some_token at h in
        let same : m.token ≡ token = cc in rw some_token (held_token m token some_token same g.1)
  ]

  module _ {A : Type 0} (op : Bytes → Exec Requests ChatError A)
      (h : (token : Bytes) (log : Requests) → Login log token → Keeps (Later log) (op token)) where
    with_result :
        (r : Result ChatError Bytes) (m : Manager K)
        → IsTidy m
        → ((token : Bytes) → r ≡ ok token → Login m.requests token)
        → IsTidy (continue r m (λ token. with_token C (op token))).1
    with_result (err e) m g k = g
    with_result (ok token) m g k =
        with_token-Proper (op token) m (h token m.requests (k token refl)) g

    -- an operation with the token
    pub authorized-Proper : Keeps IsTidy (ensure_token C >>= λ token. with_token C (op token))
    authorized-Proper m g =
        with_result (ensure_token C m).0 (ensure_token C m).1 (ensure_token-Proper m g)
          (λ token. ensure_token-Login m token g)
