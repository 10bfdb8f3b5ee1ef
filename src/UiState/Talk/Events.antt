-- ===== src/UiState/Talk/Events.antt =====
-- ui/state/chatstate_events.go: how an event of the engine is folded into the conversations, and the
-- binding of an account.
use vayu_mail_mobile.Base.{
  ℕ, suc, Bool, true, false, ◌&&◌, ◌||◌, not, Option, none, some, [], ◌∷◌, ◌++◌, map, ℤ, Bytes,
  codes, eq_bytes, lower, trim_space, ◌==◌, if◌then◌else◌,
}
use vayu_mail_mobile.Chat.Events.{
  IncomingMessage, Event, incoming, message_read, message_expired, delivered, peer_key, conn_state,
}
use vayu_mail_mobile.UiState.Talk.{
  msg_sent, msg_queued, msg_read, msg_sealed, msg_expired, ChatMessage, ChatConv, ChatState,
  normal_peer, arm, with_conv, has_message, find_conv, set_status_by_id,
}

-- `strings.EqualFold` of the trimmed fingerprints, which are ASCII
abbrev pub same_key : Bytes → Bytes → Bool
same_key a b = eq_bytes (map lower (trim_space a)) (map lower (trim_space b))

abbrev pub is_set : Bytes → Bool
is_set [] = false
is_set (c ∷ s) = true

-- not validly signed, or, in a verified conversation, by another key than the verified one
unfoldable pub is_suspect : IncomingMessage → ChatConv → Bool
is_suspect e c =
    not e.authentic
    || (c.verified && is_set c.fingerprint && not (same_key e.sender_fingerprint c.fingerprint))

abbrev or_now : Option ℕ → ℕ → ℕ
or_now none now = now
or_now (some t) now = t

unfoldable pub new_message : IncomingMessage → ℕ → ChatConv → ChatMessage
unfolding is_suspect
new_message e now c = record {
  id = e.id;
  peer = c.peer;
  self = false;
  text = e.plaintext;
  created_at = or_now e.created_at now;
  expires_at = none;
  armed_at = none;
  burn_seconds = e.burn_seconds;
  mode = e.mode;
  status = msg_sealed;
  revealed = false;
  unauthenticated = is_suspect e c;
}

-- the conversation behind the message, unless it holds it already
unfoldable pub receive : IncomingMessage → ℕ → Bytes → ChatConv → ChatConv
unfolding new_message
receive e now active c = if has_message e.id c.msgs then c else record c {
  msgs = c.msgs ++ new_message e now c ∷ [];
  last_activity = now;
  unread = if eq_bytes active c.peer then c.unread else suc c.unread;
}

-- a new message of a conversation that is not open
abbrev is_news : Bytes → Option ChatConv → Bool
is_news id none = true
is_news id (some c) = not (has_message id c.msgs)

unfoldable pub apply_incoming : IncomingMessage → ℕ → ChatState → ChatState
unfolding receive
apply_incoming e now s =
    let peer = normal_peer e.peer in
    let posts = is_news e.id (find_conv peer s.convs) && not (eq_bytes s.active_peer peer) in
    record s {
      convs = with_conv peer now (receive e now s.active_peer) s.convs;
      notified = if posts then s.notified ++ peer ∷ [] else s.notified;
    }

abbrev pub arm_unless : Option ℤ → ℕ → ChatMessage → ChatMessage
arm_unless none now m = arm now m
arm_unless (some t) now m = m

-- what a read receipt does to the message: the countdown starts once
abbrev pub mark_read : ℕ → ChatMessage → ChatMessage
mark_read now m = arm_unless m.expires_at now (record m { status = msg_read })

abbrev pub mark_delivered : ChatMessage → ChatMessage
mark_delivered m = record m {
  status = if eq_bytes m.mode (codes "store") then msg_queued else msg_sent;
}

abbrev pub mark_expired : ChatMessage → ChatMessage
mark_expired m = record m { status = msg_expired }

abbrev pub learn_key : Bytes → Bool → ChatConv → ChatConv
learn_key fingerprint verified c = record c { fingerprint = fingerprint; verified = verified }

unfoldable pub apply : Event → ℕ → ChatState → ChatState
unfolding apply_incoming arm
apply (incoming e) now s = apply_incoming e now s
apply (delivered id done) now s = record s {
  convs = set_status_by_id id now mark_delivered s.convs;
}
apply (message_read peer id) now s = record s {
  convs = set_status_by_id id now (mark_read now) s.convs;
}
apply (message_expired id) now s = record s { convs = set_status_by_id id now mark_expired s.convs }
apply (peer_key peer fingerprint verified) now s = record s {
  convs = with_conv (normal_peer peer) now (learn_key fingerprint verified) s.convs;
}
apply (conn_state online error) now s = record s { online = online }

-- `Stop`, and what `startManager` sets when its manager runs
unfoldable pub stop : ChatState → ChatState
stop s = record s {
  bound_id = 0;
  connected = false;
  transitioning = false;
  online = false;
  active_peer = [];
  convs = [];
}

unfoldable pub manager_started : ChatState → ChatState
manager_started s = record s {
  connected = true;
  transitioning = false;
  online = false;
  active_peer = [];
  convs = [];
}

-- the part of `EnsureStarted` before its goroutine, for an account with an id and an address
unfoldable pub ensure_started : ℕ → ChatState → ChatState
ensure_started account s =
    if (s.bound_id == account && (s.connected || s.transitioning)) || s.transitioning
    then s
    else record s { transitioning = true; bound_id = account; connected = false }
