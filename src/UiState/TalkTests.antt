-- ===== src/UiState/TalkTests.antt =====
-- The conversations at concrete inputs.
use vayu_mail_mobile.Base.{
  ℕ, ◌≡◌, refl, true, false, none, some, List, [], ◌∷◌, Memᴰ, codes, pos, eq_bytes, lower,
  trim_space,
}
use vayu_mail_mobile.Chat.Events.{IncomingMessage, incoming, delivered, peer_key}
use vayu_mail_mobile.Chat.Manager.Incoming.{handle_all}
use vayu_mail_mobile.UiState.Talk.{
  msg_sealed, msg_sending, msg_queued, ChatMessage, ChatConv, ChatState, normal_peer, with_conv,
  has_message, find_conv,
}
use vayu_mail_mobile.UiState.Talk.Events.{apply, apply_incoming, receive, new_message, is_suspect}
use vayu_mail_mobile.UiState.Talk.Actions.{message_sent}
use vayu_mail_mobile.UiState.Talk.Moves.{Move, event, do_move, do_moves}
use vayu_mail_mobile.UiState.Talk.Ids.{Once, received-Once}
use vayu_mail_mobile.Chat.StandIns.{config, idle_engine, stream, opened_letter, reported}
use vayu_mail_mobile.UiState.Talk.EndToEnd.{SignedOrigin, shown_SignedOrigin}
use vayu_mail_mobile.UiState.Talk.Delivery.{status_of, delivery_order}

abbrev started_state : ChatState
started_state = record {
  bound_id = 1;
  connected = true;
  transitioning = false;
  online = true;
  active_peer = [];
  convs = [];
  notified = [];
}

abbrev signed : IncomingMessage
signed = record {
  peer = codes " A@b.c";
  id = codes "7";
  plaintext = codes "hello";
  authentic = true;
  sender_fingerprint = codes "abcd";
  created_at = some 5;
  expires_at = none;
  burn_seconds = pos 30;
  mode = codes "store";
}

-- the key of the peer, verified, and then the same message twice
abbrev arrivals : List (Move × ℕ)
arrivals =
    (event (peer_key (codes "a@b.c") (codes "ABCD") true), 10)
    ∷ (event (incoming signed), 11)
    ∷ (event (incoming signed), 12)
    ∷ []

abbrev shown : ChatMessage
shown = record {
  id = codes "7";
  peer = codes "a@b.c";
  self = false;
  text = codes "hello";
  created_at = 5;
  expires_at = none;
  armed_at = none;
  burn_seconds = pos 30;
  mode = codes "store";
  status = msg_sealed;
  revealed = false;
  unauthenticated = false;
}

abbrev room : ChatConv
room = record {
  peer = codes "a@b.c";
  fingerprint = codes "ABCD";
  verified = true;
  unread = 1;
  last_activity = 11;
  msgs = shown ∷ [];
}

abbrev room_state : ChatState
room_state = record started_state { convs = room ∷ [] }

room_after : (do_moves arrivals started_state).convs ≡ room ∷ []
unfolding do_moves do_move apply apply_incoming receive new_message is_suspect with_conv has_message
    find_conv normal_peer lower trim_space eq_bytes
room_after = refl

received-Once_example : Once (shown ∷ [])
received-Once_example =
    received-Once arrivals started_state refl room (rw room_after (Memᴰ.head refl))

delivery_order_example :
    let after =
      message_sent (codes "a@b.c") (codes "hi") 30 (codes "store") (codes "8") 21 room_state in
    (status_of (codes "8") (apply (delivered (codes "8") true) 22 after).convs ≡ some msg_queued)
    × (apply (delivered (codes "8") true) 20 room_state ≡ room_state)
    × (status_of
          (codes "8")
          (message_sent
            (codes "a@b.c")
            (codes "hi")
            30
            (codes "store")
            (codes "8")
            21
            (apply (delivered (codes "8") true) 20 room_state)).convs
        ≡ some msg_sending)
unfolding has_message eq_bytes
delivery_order_example =
    delivery_order (codes "a@b.c") (codes "hi") (codes "store") (codes "8") 30 20 21 22 true
      room_state (refl, tt)

abbrev handed_over : List (Move × ℕ)
handed_over = (event (incoming opened_letter), 11) ∷ []

abbrev letter_shown : ChatMessage
letter_shown = record shown { peer = codes "a@b.cd" }

abbrev letter_room : ChatConv
letter_room = record {
  peer = codes "a@b.cd";
  fingerprint = [];
  verified = false;
  unread = 1;
  last_activity = 11;
  msgs = letter_shown ∷ [];
}

letter_arrived : (do_moves handed_over started_state).convs ≡ letter_room ∷ []
unfolding do_moves do_move apply apply_incoming receive new_message is_suspect with_conv has_message
    find_conv normal_peer lower trim_space eq_bytes
letter_arrived = refl

event_of :
    {a b : IncomingMessage} {s t : ℕ}
    → ◌≡◌ {A = Move × ℕ} (event (incoming a), s) (event (incoming b), t)
    → incoming a ≡ incoming b
event_of h = cc

is_reported :
    (e : IncomingMessage) (now : ℕ)
    → Memᴰ (event (incoming e), now) handed_over
    → Memᴰ (incoming e) (handle_all config stream idle_engine).events
is_reported e now (Memᴰ.head same) = rw reported (Memᴰ.head (event_of same))
is_reported e now (Memᴰ.tail at) = elim at [ ]

shown_SignedOrigin_example :
    SignedOrigin config stream handed_over started_state (codes "a@b.cd") letter_shown
shown_SignedOrigin_example =
    shown_SignedOrigin config stream idle_engine handed_over started_state refl is_reported refl
      letter_room letter_shown (rw letter_arrived (Memᴰ.head refl)) (Memᴰ.head refl) refl refl
