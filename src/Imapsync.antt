-- ===== src/Imapsync.antt =====
-- internal/mail/imapsync/fetch.go and idle.go: the incremental sync of one folder and the
-- reconciliations after it. What the server answers to a FETCH, the parser of messages, encoding/json and
-- the expression that takes reply prefixes off a subject are parameters; UIDs have 32 bits.
pub mod Fetch
pub mod Rows
pub mod Midway
pub mod Resume
pub mod Mirror
pub mod Idle
pub mod Expunge
pub mod Anchor
pub mod Unchanged
mod Tests
use vayu_mail_mobile.Base.{
  is_nil, ℕ, ◌+◌, ◌%◌, ◌^◌, Bool, true, false, not, ◌&&◌, ◌||◌, Option, none, some, List, [], ◌∷◌,
  ◌++◌, map, Bytes, codes, eq_bytes, lower, trim_space, length, ℤ, negsuc, leb, ltb, ◌==◌,
  if◌then◌else◌, Result, ok, err,
}
use vayu_mail_mobile.Store.Messages.{Message}
use vayu_mail_mobile.Mime.Parse.{Parsed}

abbrev pub max_inline_body_bytes : ℕ
max_inline_body_bytes = 524288

pub record Address : Type 0 where
  pub addr : Bytes
  pub name : Bytes

pub record Envelope : Type 0 where
  pub subject : Bytes
  pub message_id : Bytes
  pub in_reply_to : List Bytes
  pub date : Option ℤ
  pub sender : List Address
  pub to : List Address
  pub cc : List Address

-- imapclient.FetchMessageBuffer
pub record Buffer : Type 0 where
  pub uid : ℕ
  pub flags : List Bytes
  pub size : ℕ
  pub modseq : ℕ
  pub envelope : Option Envelope

-- imap.SelectData
pub record Selected : Type 0 where
  pub uid_validity : ℕ
  pub highest_modseq : ℕ
  pub num_messages : ℕ

-- strings.Join
unfoldable pub join : Bytes → List Bytes → Bytes
join sep [] = []
join sep (s ∷ []) = s
join sep (s ∷ t ∷ parts) = s ++ sep ++ join sep (t ∷ parts)

abbrev pub join_addrs : List Address → Bytes
join_addrs addrs = join (codes ", ") (map (λ a. a.addr) addrs)

abbrev pub join_flags : List Bytes → Bytes
join_flags flags = join (codes " ") flags

unfoldable pub has_flag : List Bytes → Bytes → Bool
has_flag [] want = false
has_flag (f ∷ flags) want =
    let rest = has_flag flags want in eq_bytes (map lower f) (map lower want) || rest

abbrev pub seen : Bytes
seen = codes "\\Seen"

abbrev pub flagged : Bytes
flagged = codes "\\Flagged"

-- the Unix time of Go's zero time
abbrev pub zero_time : ℤ
zero_time = negsuc 62135596799

abbrev pub first_or : List Bytes → Bytes
first_or [] = []
first_or (s ∷ _) = s

abbrev pub date_or : Option ℤ → ℤ
date_or none = zero_time
date_or (some d) = d

abbrev pub no_address : Address
no_address = record { addr = []; name = [] }

abbrev pub first_address : List Address → Address
first_address [] = no_address
first_address (a ∷ _) = a

unfoldable pub thread_id : (Bytes → Bytes) → Bytes → Bytes → Bytes → Bytes
thread_id strip subject message_id in_reply_to =
    let normalized = map lower (trim_space (strip subject)) in
    if not (eq_bytes normalized [])
    then codes "subj:" ++ normalized
    else if not (eq_bytes in_reply_to [])
    then codes "ref:" ++ in_reply_to
    else codes "msg:" ++ message_id

abbrev pub bare_message : ℕ → ℕ → Buffer → Message
bare_message account folder buf = record {
  id = 0;
  account_id = account;
  folder_id = folder;
  uid = buf.uid;
  thread_id = [];
  message_id = [];
  in_reply_to = [];
  from_addr = [];
  from_name = [];
  to_addrs = [];
  cc_addrs = [];
  subject = [];
  snippet = [];
  body_text = [];
  body_html = [];
  has_attachments = false;
  pgp_status = [];
  is_read = has_flag buf.flags seen;
  is_flagged = has_flag buf.flags flagged;
  is_deleted = false;
  date = zero_time;
  size_bytes = buf.size;
  flags = join_flags buf.flags;
  has_trackers = false;
  is_list = false;
  list_unsubscribe = [];
  snooze_until = 0;
  attachments = [];
}

abbrev pub with_envelope : (Bytes → Bytes) → Option Envelope → Message → Message
with_envelope strip none msg = msg
with_envelope strip (some env) msg = record msg {
  subject = env.subject;
  message_id = env.message_id;
  in_reply_to = first_or env.in_reply_to;
  date = date_or env.date;
  from_addr = (first_address env.sender).addr;
  from_name = (first_address env.sender).name;
  to_addrs = join_addrs env.to;
  cc_addrs = join_addrs env.cc;
  thread_id = thread_id strip env.subject env.message_id (first_or env.in_reply_to);
}

unfoldable pub message_from_buffer : (Bytes → Bytes) → ℕ → ℕ → Buffer → Message
message_from_buffer strip account folder buf =
    with_envelope strip buf.envelope (bare_message account folder buf)

abbrev pub encoded : Option Bytes → Bytes → Bytes
encoded none old = old
encoded (some s) old = s

-- the ciphertext of an encrypted message is its body
abbrev pub keep_cipher : Bytes → Message → Message
keep_cipher [] msg = msg
keep_cipher (c ∷ s) msg = record msg {
  body_text = c ∷ s;
  snippet = if eq_bytes msg.snippet [] then codes "Encrypted message" else msg.snippet;
}

abbrev pub read_message : Parsed → Message → Message
read_message parsed msg = record msg {
  body_text = parsed.text;
  body_html = parsed.html;
  snippet = parsed.snippet;
  has_attachments = not (is_nil parsed.attachments);
  pgp_status = parsed.pgp_status;
}

-- what fetchAndAttachBody writes, once the body is downloaded and parsed
unfoldable pub attach_body : (List (Bytes × Bytes) → Option Bytes) → Parsed → Message → Message
attach_body to_json parsed msg =
    record (keep_cipher parsed.encrypted_block (read_message parsed msg)) {
      has_trackers = parsed.has_trackers;
      is_list = not (eq_bytes parsed.list_id []);
      list_unsubscribe = parsed.list_unsubscribe;
      attachments =
          if is_nil parsed.attachments
          then msg.attachments
          else encoded (to_json parsed.attachments) msg.attachments;
    }
