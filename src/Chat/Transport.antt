-- ===== src/Chat/Transport.antt =====
-- internal/chat/transport.go, and OpenStream of stream.go: the requests of VayuTalk. The state is the list
-- of the requests that were sent, the first one first; what the network answers may depend on it.
pub mod Hosts
pub mod Proper
pub mod Login
use vayu_mail_mobile.Base.{
  contains, ℕ, ℤ, ◌*◌, ◌^◌, Bool, true, false, ◌&&◌, ◌||◌, not, Option, none, some, List, [], ◌∷◌,
  ◌++◌, map, Bytes, codes, eq_bytes, length, take, lower, has_prefix, is_space, ltb, leb, ◌==◌,
  if◌then◌else◌, Exec, Result, ok, err, ◌>>=◌, ◌>>◌, pure, raise,
}
use vayu_mail_mobile.Chat.Events.{ChatError, talk_auth, talk_disabled, talk_error}

-- what is sent as JSON
pub data Payload : Type 0 where
  without_body : Payload
  credentials : (email password : Bytes) → Payload
  message : (to ciphertext : Bytes) (ttl_seconds : ℤ) (mode : Bytes) → Payload
  acknowledged : (id : Bytes) → Payload

pub record Request : Type 0 where
  pub url : Bytes
  pub bearer : Bytes
  pub payload : Payload

pub data Reply : Type 0 where
  unreachable : Reply
  answer : (status : ℕ) (body : Bytes) → Reply

abbrev pub Requests : Type 0
Requests = List Request

-- net/http, net.ParseIP, url.QueryEscape, and encoding/json on the shapes of the answers
pub record Net : Type 0 where
  pub reply : Requests → Request → Reply
  pub is_ip : Bytes → Bool
  pub query_escape : Bytes → Bytes
  pub decode_connect : Bytes → Option Bytes
  pub decode_send : Bytes → Option (Bytes × Bool)
  pub decode_pub_key : Bytes → Option (Bytes × Bytes)

abbrev pub max_talk_resp : ℕ
max_talk_resp = 256 * 2 ^ 10

abbrev between : ℕ → ℕ → ℕ → Bool
between a b c = leb a c && leb c b

abbrev pub is_alnum : ℕ → Bool
is_alnum c = between 48 57 c || between 65 90 c || between 97 122 c

-- the texts between the full stops
unfoldable pub labels : Bytes → Bytes → List Bytes
labels [] label = label ∷ []
labels (c ∷ s) label =
    let next = labels s [] in
    let longer = labels s (label ++ c ∷ []) in if c == 46 then label ∷ next else longer

unfoldable pub inner_label : Bytes → Bool
inner_label [] = false
inner_label (c ∷ []) = is_alnum c
inner_label (c ∷ d ∷ s) = (is_alnum c || c == 45) && inner_label (d ∷ s)

-- one label of mailHostRe
unfoldable pub is_label : Bytes → Bool
unfolding inner_label
is_label [] = false
is_label (c ∷ []) = is_alnum c
is_label (c ∷ d ∷ s) = is_alnum c && inner_label (d ∷ s) && leb (length (c ∷ d ∷ s)) 63

unfoldable pub all_labels : List Bytes → Bool
unfolding is_label
all_labels [] = true
all_labels (l ∷ ls) = is_label l && all_labels ls

unfoldable pub mail_host_re : Bytes → Bool
unfolding labels all_labels
mail_host_re s = leb 2 (length (labels s [])) && all_labels (labels s [])

unfoldable pub public_talk_domain : (Bytes → Bool) → Bytes → Bool
unfolding mail_host_re
public_talk_domain is_ip domain =
    not (eq_bytes domain [])
    && leb (length domain) 253
    && not (eq_bytes (map lower domain) (codes "localhost"))
    && not (is_ip domain)
    && mail_host_re domain

unfoldable pub base_url : Bytes → Bytes
base_url domain = codes "https://" ++ (domain ++ codes "/api/v1/talk")

abbrev pub status_err : ℕ → Option ChatError
status_err code =
    if code == 200
    then none
    else if code == 401
    then some talk_auth
    else if code == 404 || code == 503
    then some talk_disabled
    else some talk_error

-- a key that is missing is not a server without VayuTalk
abbrev pub key_status_err : ℕ → Option ChatError
key_status_err code = if code == 404 then some talk_error else status_err code

abbrev pub answer_of : Reply → Result ChatError (ℕ × Bytes)
answer_of unreachable = err talk_error
answer_of (answer status body) = ok (status, body)

module _ (N : Net) where
  -- `do`: the answer to a request
  unfoldable pub do_request : Bytes → Bytes → Bytes → Payload → Exec Requests ChatError (ℕ × Bytes)
  unfolding base_url
  do_request domain path token payload log =
      let request : Request = record {
        url = base_url domain ++ path;
        bearer = token;
        payload = payload;
      } in
      (answer_of (N.reply log request), log ++ request ∷ [])

  abbrev pub guard : Bytes → Exec Requests ChatError (Unit {0})
  guard domain = if public_talk_domain N.is_ip domain then pure tt else raise talk_error

  abbrev pub no_error : Option ChatError → Exec Requests ChatError (Unit {0})
  no_error none = pure tt
  no_error (some e) = raise e

  abbrev pub checked : ℕ → Exec Requests ChatError (Unit {0})
  checked status = no_error (status_err status)

  abbrev pub parsed : {A : Type 0} → Option A → Exec Requests ChatError A
  parsed none = raise talk_error
  parsed (some a) = pure a

  -- `decode` reads no more than the cap
  abbrev pub decoded : {A : Type 0} → (Bytes → Option A) → Bytes → Exec Requests ChatError A
  decoded f body = parsed (f (take max_talk_resp body))

  abbrev pub unless_empty : Bytes → Exec Requests ChatError Bytes
  unless_empty [] = raise talk_error
  unless_empty (c ∷ s) = pure (c ∷ s)

  unfoldable pub connect : Bytes → Bytes → Bytes → Exec Requests ChatError Bytes
  unfolding do_request public_talk_domain
  connect domain email password =
      guard domain >> do_request domain (codes "/connect") [] (credentials email password) >>= λ a.
      checked a.0 >> decoded N.decode_connect a.1 >>= unless_empty

  unfoldable pub send :
      Bytes → Bytes → Bytes → Bytes → ℤ → Bytes → Exec Requests ChatError (Bytes × Bool)
  unfolding do_request public_talk_domain
  send domain token to ciphertext ttl_seconds mode =
      guard domain
      >> do_request domain (codes "/send") token (message to ciphertext ttl_seconds mode)
      >>= λ a. checked a.0 >> decoded N.decode_send a.1

  unfoldable pub ack : Bytes → Bytes → Bytes → Exec Requests ChatError (Unit {0})
  unfolding do_request public_talk_domain
  ack domain token id =
      guard domain >> do_request domain (codes "/ack") token (acknowledged id) >>= λ a. checked a.0

  abbrev pub armored_key : Bytes × Bytes → Exec Requests ChatError (Bytes × Bytes)
  armored_key (armored, fingerprint) =
      if contains armored (codes "BEGIN PGP PUBLIC KEY BLOCK")
      then pure (armored, fingerprint)
      else raise talk_error

  unfoldable pub fetch_pub_key : Bytes → Bytes → Bytes → Exec Requests ChatError (Bytes × Bytes)
  unfolding do_request public_talk_domain contains
  fetch_pub_key domain token email =
      guard domain
      >> do_request domain (codes "/pubkey?email=" ++ N.query_escape email) token without_body
      >>= λ a. no_error (key_status_err a.0) >> decoded N.decode_pub_key a.1 >>= armored_key

  -- the body of the stream
  unfoldable pub open_stream : Bytes → Bytes → Exec Requests ChatError Bytes
  unfolding do_request public_talk_domain
  open_stream token domain =
      guard domain >> do_request domain (codes "/stream") token without_body >>= λ a.
      checked a.0 >> pure a.1
