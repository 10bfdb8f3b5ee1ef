-- ===== src/Chat/StandIns.antt =====
-- A small server, keyring and engine of VayuTalk, for the tests.
use vayu_mail_mobile.Base.{
  ℕ, ◌*◌, ◌≡◌, refl, Bool, true, false, Option, none, some, List, [], ◌∷◌, codes, pos,
  if◌then◌else◌,
}
use vayu_mail_mobile.Chat.Events.{IncomingMessage, incoming}
use vayu_mail_mobile.Chat.Stream.{Codec, Envelope, StreamEvent, envelope}
use vayu_mail_mobile.Chat.Transport.{Net, answer}
use vayu_mail_mobile.Chat.Manager.{Config, Manager, sig_valid, second, emit}
use vayu_mail_mobile.Chat.Manager.Incoming.{
  handle_all, handle_stream_event, handle_envelope, resync_once, resync_with, message_of,
}

abbrev pub server : Net
server = record {
  reply = λ log r. answer 200 (codes "t");
  is_ip = λ d. false;
  query_escape = λ s. s;
  decode_connect = λ b. some b;
  decode_send = λ b. some (b, true);
  decode_pub_key = λ b. none;
}

-- the keyring is whether it holds the present key; a re-fetch brings it
abbrev pub config : Config Bool
config = record {
  net = server;
  self_email = codes "me@b.cd";
  domain = codes "b.cd";
  credential = λ log. some (codes "pw");
  has_settings = false;
  resync_key = some (λ t keys. some true);
  encrypt = λ keys text to from. some text;
  decrypt = λ keys raw.
      if keys
      then some (record { plaintext = raw; signature = sig_valid; signed_by = codes "abcd" })
      else none;
  import_armored = λ keys a. some keys;
  encode_base64 = λ s. s;
  decode_base64 = λ s. some s;
  clock = λ t. t * second;
}

abbrev pub idle_engine : Manager Bool
idle_engine = record {
  token = [];
  sent_to = [];
  verified_mem = [];
  next_resync = none;
  events = [];
  requests = [];
  db = record { settings = []; outbox = []; faults = [] };
  keys = false;
  ticks = 0;
  fetches = [];
}

abbrev pub json : Codec (Option ℕ)
json = record {
  unmarshal_envelope = λ b. none;
  unmarshal_receipt = λ b. none;
  parse_time = λ b. none;
}

abbrev pub letter : Envelope (Option ℕ)
letter = record {
  id = codes "7";
  from = codes "a@b.cd";
  ciphertext = codes "hello";
  created_at = some 5;
  expires_at = none;
  burn_seconds = pos 30;
  mode = codes "store";
}

abbrev pub stream : List (StreamEvent (Option ℕ))
stream = envelope letter ∷ []

abbrev pub opened_letter : IncomingMessage
opened_letter = record {
  peer = codes "a@b.cd";
  id = codes "7";
  plaintext = codes "hello";
  authentic = true;
  sender_fingerprint = codes "abcd";
  created_at = some 5;
  expires_at = none;
  burn_seconds = pos 30;
  mode = codes "store";
}

pub reported : (handle_all config stream idle_engine).events ≡ incoming opened_letter ∷ []
unfolding handle_all handle_stream_event handle_envelope resync_once resync_with emit message_of
reported = refl
