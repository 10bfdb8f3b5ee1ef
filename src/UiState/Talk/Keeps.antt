-- ===== src/UiState/Talk/Keeps.antt =====
-- ui/state/chatstate*.go: what every conversation keeps through every move.
use vayu_mail_mobile.Base.{
  ℕ, ◌≡◌, refl, ◌&&◌, ◌||◌, none, some, List, [], ◌∷◌, Bytes, eq_bytes, ◌==◌, Bool-cases, inl, inr,
  All,
}
use vayu_mail_mobile.UiState.Talk.{
  ChatMessage, ChatConv, ChatState, normal_peer, new_conv, with_conv, on_conv, has_message,
  find_conv, set_status_by_id,
}
use vayu_mail_mobile.Chat.Events.{
  incoming, delivered, message_read, message_expired, peer_key, conn_state,
}
use vayu_mail_mobile.UiState.Talk.Events.{
  receive, apply_incoming, mark_read, mark_delivered, mark_expired, apply, stop, manager_started,
  ensure_started,
}
use vayu_mail_mobile.UiState.Talk.Actions.{
  add_sent, message_sent, reveal_message, set_verified, open_conversation, close_conversation,
}
use vayu_mail_mobile.UiState.Talk.Alike.{
  Alike, AllAlike, all_alike, change-Alike, mark_read-Alike, reveal_all-Alike,
}
use vayu_mail_mobile.UiState.Talk.Moves.{
  Move, event, sent, revealed, verified, room_opened, closed, stopped, bound, started, do_move,
}

-- what a move has to show: a message that arrives keeps the conversation good
module _ (Good : ChatConv → Type 0) where
  abbrev pub Arrives : Move → ℕ → ChatState → Type 0
  Arrives (event (incoming e)) now s =
      let peer = normal_peer e.peer in
      ((c : ChatConv)
        → find_conv peer s.convs ≡ some c
        → Good c
        → Good (receive e now s.active_peer c))
      × (find_conv peer s.convs ≡ none → Good (receive e now s.active_peer (new_conv peer now)))
  Arrives _ now s = Unit

-- a property of a conversation that its messages' fixed parts decide, and that a message of one's own
-- does not break
module _ (Good : ChatConv → Type 0)
    (alike_Good : (c d : ChatConv) → d.peer ≡ c.peer → AllAlike c.msgs d.msgs → Good c → Good d)
    (new_Good : (peer : Bytes) (now : ℕ) → Good (new_conv peer now))
    (sent_Good : (id text : Bytes) (burn : ℕ) (mode : Bytes) (now : ℕ) (c : ChatConv)
      → Good c
      → Good (add_sent id text burn mode now c)) where
  with_conv-Good :
      (peer : Bytes) (now : ℕ) (f : ChatConv → ChatConv) (cs : List ChatConv)
      → ((c : ChatConv) → find_conv peer cs ≡ some c → Good c → Good (f c))
      → (find_conv peer cs ≡ none → Good (f (new_conv peer now)))
      → All Good cs
      → All Good (with_conv peer now f cs)
  unfolding with_conv find_conv
  with_conv-Good peer now f [] h n g = (n refl, tt)
  with_conv-Good peer now f (c ∷ cs) h n (gc, g) = elim (Bool-cases (eq_bytes c.peer peer)) [
    | inl same ↦ rw same (h c (rw same refl) gc, g)
    | inr other ↦ rw other (gc, with_conv-Good peer now f cs (rw other at h) (rw other at n) g)
  ]

  on_conv-Good :
      (peer : Bytes) (f : ChatConv → ChatConv) (cs : List ChatConv)
      → ((c : ChatConv) → Good c → Good (f c))
      → All Good cs
      → All Good (on_conv peer f cs)
  unfolding on_conv
  on_conv-Good peer f [] h g = tt
  on_conv-Good peer f (c ∷ cs) h (gc, g) = elim (Bool-cases (eq_bytes c.peer peer)) [
    | inl same ↦ rw same (h c gc, g)
    | inr other ↦ rw other (gc, on_conv-Good peer f cs h g)
  ]

  set_status-Good :
      (id : Bytes) (now : ℕ) (f : ChatMessage → ChatMessage) (cs : List ChatConv)
      → ((m : ChatMessage) → Alike m (f m))
      → All Good cs
      → All Good (set_status_by_id id now f cs)
  unfolding set_status_by_id
  set_status-Good id now f [] h g = tt
  set_status-Good id now f (c ∷ cs) h (gc, g) = elim (Bool-cases (has_message id c.msgs)) [
    | inl same ↦ rw same (alike_Good c _ refl (change-Alike id f c.msgs h) gc, g)
    | inr other ↦ rw other (gc, set_status-Good id now f cs h g)
  ]

  any_with_conv-Good :
      (peer : Bytes) (now : ℕ) (f : ChatConv → ChatConv) (cs : List ChatConv)
      → ((c : ChatConv) → Good c → Good (f c))
      → All Good cs
      → All Good (with_conv peer now f cs)
  any_with_conv-Good peer now f cs h g =
      with_conv-Good peer now f cs (λ c e. h c) (λ e. h _ (new_Good peer now)) g

  pub do_move-Good :
      (m : Move) (now : ℕ) (s : ChatState)
      → Arrives Good m now s
      → All Good s.convs
      → All Good (do_move m now s).convs
  unfolding do_move apply apply_incoming message_sent reveal_message set_verified open_conversation
      close_conversation stop ensure_started manager_started
  do_move-Good (event (incoming e)) now s a g =
      with_conv-Good (normal_peer e.peer) now _ s.convs a.0 a.1 g
  do_move-Good (event (delivered id done)) now s a g =
      set_status-Good id now mark_delivered s.convs
        (λ m. record { same_id = refl; same_self = refl; same_text = refl; same_doubt = refl }) g
  do_move-Good (event (message_read peer id)) now s a g =
      set_status-Good id now (mark_read now) s.convs (mark_read-Alike now) g
  do_move-Good (event (message_expired id)) now s a g =
      set_status-Good id now mark_expired s.convs
        (λ m. record { same_id = refl; same_self = refl; same_text = refl; same_doubt = refl }) g
  do_move-Good (event (peer_key peer fingerprint verdict)) now s a g =
      any_with_conv-Good (normal_peer peer) now _ s.convs
        (λ c. alike_Good c _ refl (all_alike c.msgs)) g
  do_move-Good (event (conn_state online error)) now s a g = g
  do_move-Good (sent peer text burn mode id) now s a g =
      any_with_conv-Good (normal_peer peer) now _ s.convs (sent_Good id text burn mode now) g
  do_move-Good (revealed peer id) now s a g =
      on_conv-Good (normal_peer peer) _ s.convs
        (λ c. alike_Good c _ refl (reveal_all-Alike id now c.msgs)) g
  do_move-Good (verified peer verdict) now s a g =
      on_conv-Good (normal_peer peer) _ s.convs (λ c. alike_Good c _ refl (all_alike c.msgs)) g
  do_move-Good (room_opened peer) now s a g = elim (Bool-cases (eq_bytes (normal_peer peer) [])) [
    | inl nobody ↦ rw nobody g
    | inr some_peer ↦ rw some_peer (
        any_with_conv-Good (normal_peer peer) now _ s.convs
          (λ c. alike_Good c _ refl (all_alike c.msgs)) g)
  ]
  do_move-Good closed now s a g = g
  do_move-Good stopped now s a g = tt
  do_move-Good started now s a g = tt
  do_move-Good (bound account) now s a g =
      elim (Bool-cases
        ((s.bound_id == account && (s.connected || s.transitioning)) || s.transitioning)) [
          | inl busy ↦ rw busy g
          | inr idle ↦ rw idle g
        ]
