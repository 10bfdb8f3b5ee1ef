-- ===== src/Chat/Manager/Wire.antt =====
-- internal/chat/manager.go and manager_ops.go: the requests that the whole engine makes, whoever calls it
-- and however the network answers.
use vayu_mail_mobile.Base.{
  ◌≡◌, refl, Memᴰ, Keeps, bind-Keeps, ℕ, zero, suc, pos, ◌/◌, Bool, Option, none, some, List, [],
  ◌∷◌, Bytes, ltb, length, Exec, Result, ok, err, ◌>>=◌, ◌>>◌, Bool-cases, inl, inr,
}
use vayu_mail_mobile.Chat.Events.{ChatError, Event, keyring_error}
use vayu_mail_mobile.Chat.Stream.{Codec, parse_sse}
use vayu_mail_mobile.Chat.Transport.{Requests, send, ack, fetch_pub_key, open_stream}
use vayu_mail_mobile.Chat.Transport.Proper.{
  Traffic, quiet, send-Keeps, ack-Keeps, fetch_pub_key-Keeps, open_stream-Keeps,
}
use vayu_mail_mobile.Chat.Manager.{
  Config, Manager, emit, event_capacity, with_token, given, ensure_token, second,
}
use vayu_mail_mobile.Chat.Manager.Operations.{
  manager_send, manager_ack, is_verified, set_peer_verified, verify_peer, sent_as, import_key,
  report_key,
}
use vayu_mail_mobile.Chat.Manager.Incoming.{
  resync_with, resync_once, fetched, cools_down, turn, turned, run, next_backoff,
}
use vayu_mail_mobile.Chat.Manager.Calls.{
  Call, call_send, call_ack, call_verify_peer, call_set_verified, call_turns, call_take_event,
  do_call, do_calls,
}
use vayu_mail_mobile.Chat.Manager.Incoming.Keeps.{handle_all-Good}
use vayu_mail_mobile.Chat.Manager.Session.{Order, IsTidy, given-Proper, authorized-Proper}

module _ {K : Type 0} (C : Config K) (calls : List Call) where
  abbrev Tidy : Manager K → Type 0
  Tidy = IsTidy C calls

  emit-Proper : (ev : Event) (m : Manager K) → Tidy m → Tidy (emit C ev m)
  unfolding emit
  emit-Proper ev m h = elim (Bool-cases (ltb (length m.events) event_capacity)) [
    | inl room ↦ rw room h
    | inr full ↦ rw full h
  ]

  fetched-Proper : (now : ℕ) (o : Option K) (m : Manager K) → Tidy m → Tidy (fetched C now o m).1
  fetched-Proper now none m h = h
  fetched-Proper now (some keys) m h = h

  resync-Proper :
      (f : Option (ℕ → K → Option K)) (m : Manager K) → Tidy m → Tidy (resync_with C f m).1
  unfolding resync_with
  resync-Proper none m h = h
  resync-Proper (some fetch) m h = elim (Bool-cases (cools_down (C.clock m.ticks) m.next_resync)) [
    | inl early ↦ rw early h
    | inr late ↦ rw late (fetched-Proper (C.clock m.ticks) _ (record m { ticks = suc m.ticks }) h)
  ]

  resync_once-Proper : (m : Manager K) → Tidy m → Tidy (resync_once C m).1
  unfolding resync_once
  resync_once-Proper m g = resync-Proper C.resync_key m g

  module _ (peer plaintext : Bytes) (burn : ℕ) (mode : Bytes)
      (at : Memᴰ (call_send peer plaintext burn mode) calls) where
    abbrev to_wire : Bytes → Bytes → Exec Requests ChatError (Bytes × Bool)
    to_wire ciphertext token =
        send C.net C.domain token peer (C.encode_base64 ciphertext) (pos (burn / second)) mode

    transmit-Proper :
        (o : Option Bytes) (m : Manager K)
        → C.encrypt m.keys plaintext peer C.self_email ≡ o
        → Tidy m
        → Tidy
            ((given C keyring_error o >>= λ ciphertext.
                ensure_token C >>= λ token. with_token C (to_wire ciphertext token))
              m).1
    transmit-Proper none m e g = g
    transmit-Proper (some ciphertext) m e g =
        authorized-Proper C calls (to_wire ciphertext)
          (λ token log granted.
            send-Keeps C.net C.domain (Order C calls) log token peer (C.encode_base64 ciphertext) _
              mode granted
              (inl (peer, plaintext, burn, mode, m.keys, ciphertext, refl, at, e, refl)))
          m g

    manager_send-Proper : Keeps Tidy (manager_send C peer plaintext burn mode)
    unfolding manager_send
    manager_send-Proper m g =
        bind-Keeps Tidy
          (λ m.
            (given C keyring_error (C.encrypt m.keys plaintext peer C.self_email) >>= λ ciphertext.
            ensure_token C >>= λ token. with_token C (to_wire ciphertext token))
              m)
          (sent_as C peer)
          (λ m g. transmit-Proper (C.encrypt m.keys plaintext peer C.self_email) m refl g)
          (λ a m g. emit-Proper _ _ g) m g

  manager_ack-Proper : (id : Bytes) → Memᴰ (call_ack id) calls → Keeps Tidy (manager_ack C id)
  unfolding manager_ack
  manager_ack-Proper id at =
      authorized-Proper C calls (λ token. ack C.net C.domain token id)
        (λ token log granted.
          ack-Keeps C.net C.domain (Order C calls) log token id granted
            (inr (inl (id, refl, at, refl))))

  is_verified-Proper :
      (fingerprint : Bytes) (m : Manager K) → Tidy m → Tidy (is_verified C fingerprint m).1
  unfolding is_verified
  is_verified-Proper fingerprint m g = elim (Bool-cases C.has_settings) [
    | inl stored ↦ rw stored g
    | inr kept ↦ rw kept g
  ]

  set_peer_verified-Proper :
      (fingerprint : Bytes) (verified : Bool)
      → Keeps Tidy (set_peer_verified C fingerprint verified)
  unfolding set_peer_verified
  set_peer_verified-Proper fingerprint verified m g = elim (Bool-cases C.has_settings) [
    | inl stored ↦ rw stored g
    | inr kept ↦ rw kept g
  ]

  import_key-Proper : (armored : Bytes) → Keeps Tidy (import_key C armored)
  import_key-Proper armored m g =
      bind-Keeps Tidy (given C keyring_error (C.import_armored m.keys armored))
        (λ keys m. (ok tt, record m { keys = keys }))
        (given-Proper C calls keyring_error (C.import_armored m.keys armored)) (λ keys m g. g) m g

  verify_peer-Proper :
      (peer : Bytes) → Memᴰ (call_verify_peer peer) calls → Keeps Tidy (verify_peer C peer)
  unfolding verify_peer
  verify_peer-Proper peer at =
      let fetch : Bytes → Exec Requests ChatError (Bytes × Bytes) =
        λ token. fetch_pub_key C.net C.domain token peer in
      let authorized : Exec (Manager K) ChatError (Bytes × Bytes) =
        ensure_token C >>= λ token. with_token C (fetch token) in
      bind-Keeps Tidy authorized (λ key. import_key C key.0 >> report_key C peer key.1)
        (authorized-Proper C calls fetch (λ token log granted.
          fetch_pub_key-Keeps C.net C.domain (Order C calls) log token peer granted
            (inr (inr (inl (peer, refl, at, refl))))))
        (λ key.
          bind-Keeps Tidy (import_key C key.0) (λ _. report_key C peer key.1)
            (import_key-Proper key.0) (λ _ m g. emit-Proper _ _ (is_verified-Proper key.1 m g)))

  turned-Proper :
      (codec : Codec (Option ℕ)) (backoff : ℕ) (r : Result ChatError Bytes × Manager K)
      → Tidy r.1
      → Tidy (turned C codec backoff r).1
  turned-Proper codec backoff (err e, m) g = emit-Proper _ m g
  turned-Proper codec backoff (ok body, m) g = emit-Proper _ _ (
      handle_all-Good C Tidy emit-Proper (resync_once-Proper) (parse_sse codec body) _
        (emit-Proper _ m g))

  turn-Proper :
      (codec : Codec (Option ℕ)) (backoff : ℕ) (m : Manager K)
      → Tidy m
      → Tidy (turn C codec backoff m).1
  unfolding turn
  turn-Proper codec backoff m g =
      turned-Proper codec backoff
        ((ensure_token C >>= λ token. with_token C (open_stream C.net token C.domain)) m)
        (authorized-Proper C calls (λ token. open_stream C.net token C.domain)
          (λ token log granted.
            open_stream-Keeps C.net C.domain (Order C calls) log token granted
              (inr (inr (inr (refl, refl)))))
          m g)

  run-Proper :
      (codec : Codec (Option ℕ)) (n backoff : ℕ) (m : Manager K)
      → Tidy m
      → Tidy (run C codec n backoff m).1
  unfolding run
  run-Proper codec zero backoff m g = g
  run-Proper codec (suc n) backoff m g =
      run-Proper codec n (next_backoff (turn C codec backoff m).0) (turn C codec backoff m).1
        (turn-Proper codec backoff m g)

  call-Proper :
      (codec : Codec (Option ℕ)) (c : Call) (m : Manager K)
      → Memᴰ c calls
      → Tidy m
      → Tidy (do_call C codec c m)
  unfolding do_call
  call-Proper codec (call_send peer plaintext burn mode) m at g =
      manager_send-Proper peer plaintext burn mode at m g
  call-Proper codec (call_ack id) m at g = manager_ack-Proper id at m g
  call-Proper codec (call_verify_peer peer) m at g = verify_peer-Proper peer at m g
  call-Proper codec (call_set_verified fingerprint verified) m at g =
      set_peer_verified-Proper fingerprint verified m g
  call-Proper codec (call_turns n backoff) m at g = run-Proper codec n backoff m g
  call-Proper codec call_take_event m at g = g

  all-Proper :
      (codec : Codec (Option ℕ)) (cs : List Call) (m : Manager K)
      → ((c : Call) → Memᴰ c cs → Memᴰ c calls)
      → Tidy m
      → Tidy (do_calls C codec cs m)
  unfolding do_calls
  all-Proper codec [] m among g = g
  all-Proper codec (c ∷ cs) m among g =
      all-Proper codec cs (do_call C codec c m) (λ d at. among d (Memᴰ.tail at))
        (call-Proper codec c m (among c (Memᴰ.head refl)) g)

-- Whatever a fresh engine is called for, and whatever the network, the keyring and the database answer, each
-- request that it makes goes over https to the VayuTalk API of the configured domain, and that domain has
-- passed the guard against internal hosts. A request is a log-in, with the password and without a token,
-- to /connect; or its token is one that the server answered to an earlier log-in with status 200, and
-- its body is the encrypted text of a call to send, the id of a call to acknowledge, or empty, for the key
-- of a peer that a call asks to verify or for the stream.
pub do_calls-Traffic :
    {K : Type 0} (C : Config K) (codec : Codec (Option ℕ)) (calls : List Call) (m : Manager K)
    → m.requests ≡ []
    → m.token ≡ []
    → Traffic C.net C.domain (Order C calls) (do_calls C codec calls m).requests
do_calls-Traffic C codec calls m no_request no_token =
    (all-Proper C calls codec calls m (λ c at. at) (rw no_request quiet, inl no_token)).0
