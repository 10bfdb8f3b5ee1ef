-- ===== src/UiState/Talk/Actions.antt =====
-- ui/state/chatstate_ops.go: what the user does. An action that needs the engine has two parts, before
-- and after the call; what the engine returned is an argument of the second.
use vayu_mail_mobile.Base.{
  ℕ, Bool, true, false, ◌&&◌, none, not, List, [], ◌∷◌, ◌++◌, pos, Bytes, eq_bytes, trim_space,
  if◌then◌else◌,
}
use vayu_mail_mobile.UiState.Talk.{
  msg_sending, msg_open, ChatMessage, ChatConv, ChatState, normal_peer, arm, clamp_burn, with_conv,
  on_conv,
}

-- `SendMessage` reaches the engine
unfoldable pub can_send : Bytes → Bytes → ChatState → Bool
can_send peer text s =
    s.connected && not (eq_bytes (normal_peer peer) []) && not (eq_bytes (trim_space text) [])

abbrev pub sent_message : Bytes → Bytes → ℕ → Bytes → ℕ → ChatConv → ChatMessage
sent_message id text burn mode now c = record {
  id = id;
  peer = c.peer;
  self = true;
  text = trim_space text;
  created_at = now;
  expires_at = none;
  armed_at = none;
  burn_seconds = pos (clamp_burn burn);
  mode = mode;
  status = msg_sending;
  revealed = false;
  unauthenticated = false;
}

abbrev pub add_sent : Bytes → Bytes → ℕ → Bytes → ℕ → ChatConv → ChatConv
add_sent id text burn mode now c = record c {
  msgs = c.msgs ++ sent_message id text burn mode now c ∷ [];
  last_activity = now;
}

-- `mgr.Send` returned the id
unfoldable pub message_sent : Bytes → Bytes → ℕ → Bytes → Bytes → ℕ → ChatState → ChatState
message_sent peer text burn mode id now s = record s {
  convs = with_conv (normal_peer peer) now (add_sent id text burn mode now) s.convs;
}

abbrev pub reveal : Bytes → ℕ → ChatMessage → ChatMessage
reveal id now m =
    if eq_bytes m.id id && not m.self
    then arm now (record m { revealed = true; status = msg_open })
    else m

-- every received message of the conversation with the id
unfoldable pub reveal_all : Bytes → ℕ → List ChatMessage → List ChatMessage
reveal_all id now [] = []
reveal_all id now (m ∷ ms) = reveal id now m ∷ reveal_all id now ms

unfoldable pub reveal_message : Bytes → Bytes → ℕ → ChatState → ChatState
unfolding reveal_all
reveal_message peer id now s = record s {
  convs = on_conv (normal_peer peer) (λ c. record c { msgs = reveal_all id now c.msgs }) s.convs;
}

-- the record is changed, whether or not a key of the peer is known
unfoldable pub set_verified : Bytes → Bool → ChatState → ChatState
set_verified peer verified s = record s {
  convs = on_conv (normal_peer peer) (λ c. record c { verified = verified }) s.convs;
}

unfoldable pub open_conversation : Bytes → ℕ → ChatState → ChatState
open_conversation peer now s = if eq_bytes (normal_peer peer) [] then s else record s {
  convs = with_conv (normal_peer peer) now (λ c. record c { unread = 0 }) s.convs;
  active_peer = normal_peer peer;
}

unfoldable pub close_conversation : ChatState → ChatState
close_conversation s = record s { active_peer = [] }
