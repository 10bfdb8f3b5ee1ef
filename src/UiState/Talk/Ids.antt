-- ===== src/UiState/Talk/Ids.antt =====
-- ui/state/chatstate_events.go, applyIncoming: a reconnect flushes the queued messages again, and the
-- conversation holds each of them once.
use vayu_mail_mobile.Base.{
  ℕ, ◌≡◌, ◌≢◌, sym, ◌∙◌, false, List, [], ◌∷◌, ◌++◌, Bytes, eq_bytes, Bool-cases, inl, inr, All,
  All-at, All-append, Memᴰ, eq_bytes_refl,
}
use vayu_mail_mobile.UiState.Talk.{
  ChatMessage, ChatConv, ChatState, normal_peer, new_conv, has_message,
}
use vayu_mail_mobile.Chat.Events.{IncomingMessage, incoming}
use vayu_mail_mobile.UiState.Talk.Events.{new_message, receive}
use vayu_mail_mobile.UiState.Talk.Alike.{AllAlike}
use vayu_mail_mobile.UiState.Talk.Moves.{Move, event, do_move, do_moves}
use vayu_mail_mobile.UiState.Talk.Keeps.{Arrives, do_move-Good}

-- received, with that id
abbrev pub NotThis : Bytes → ChatMessage → Type 0
NotThis id m = m.self ≡ false → m.id ≢ id

-- no two received messages have one id
abbrev pub Once : List ChatMessage → Type 0
Once [] = Unit
Once (m ∷ ms) = (m.self ≡ false → All (NotThis m.id) ms) × Once ms

Once-append :
    (ms : List ChatMessage) (m : ChatMessage)
    → Once ms
    → (m.self ≡ false → All (NotThis m.id) ms)
    → Once (ms ++ m ∷ [])
Once-append [] m h new = ((λ e. tt), tt)
Once-append (x ∷ ms) m (hx, h) new = (
  (λ e. All-append (NotThis x.id) ms (m ∷ []) (hx e) ((λ f g. (new f).0 e (sym g)), tt)),
  Once-append ms m h (λ e. (new e).1),
)

alike_NotThis :
    (id id' : Bytes) (ms ns : List ChatMessage)
    → id' ≡ id
    → AllAlike ms ns
    → All (NotThis id) ms
    → All (NotThis id') ns
alike_NotThis id id' [] [] e h g = tt
alike_NotThis id id' [] (n ∷ ns) e h g = absurd h
alike_NotThis id id' (m ∷ ms) [] e h g = absurd h
alike_NotThis id id' (m ∷ ms) (n ∷ ns) e (a, h) (gm, g) = (
  (λ mine same. gm (sym a.same_self ∙ mine) (sym a.same_id ∙ same ∙ e)),
  alike_NotThis id id' ms ns e h g,
)

alike_Once : (ms ns : List ChatMessage) → AllAlike ms ns → Once ms → Once ns
alike_Once [] [] h g = tt
alike_Once [] (n ∷ ns) h g = absurd h
alike_Once (m ∷ ms) [] h g = absurd h
alike_Once (m ∷ ms) (n ∷ ns) (a, h) (gm, g) = (
  (λ mine. alike_NotThis m.id n.id ms ns a.same_id h (gm (sym a.same_self ∙ mine))),
  alike_Once ms ns h g,
)

has_message-NotThis :
    (id : Bytes) (ms : List ChatMessage) → has_message id ms ≡ false → All (NotThis id) ms
unfolding has_message
has_message-NotThis id [] h = tt
has_message-NotThis id (m ∷ ms) h = elim (Bool-cases (eq_bytes m.id id)) [
  | inl same ↦ cc (rw same at h)
  | inr other ↦ (
    (λ mine e. cc (sym (eq_bytes_refl id) ∙ (rw e at other))),
    has_message-NotThis id ms (rw other at h),
  )
]

abbrev OnceIn : ChatConv → Type 0
OnceIn c = Once c.msgs

receive-Once :
    (e : IncomingMessage) (now : ℕ) (active : Bytes) (c : ChatConv)
    → OnceIn c
    → OnceIn (receive e now active c)
unfolding receive new_message
receive-Once e now active c g = elim (Bool-cases (has_message e.id c.msgs)) [
  | inl known ↦ rw known g
  | inr new ↦ rw new (Once-append c.msgs _ g (λ mine. has_message-NotThis e.id c.msgs new))
]

move_Arrives : (m : Move) (now : ℕ) (s : ChatState) → Arrives OnceIn m now s
move_Arrives (event (incoming e)) now s = (
  (λ c found. receive-Once e now s.active_peer c),
  (λ missing. receive-Once e now s.active_peer (new_conv (normal_peer e.peer) now) tt),
)
move_Arrives _ now s = tt

do_moves-Once :
    (moves : List (Move × ℕ)) (s : ChatState)
    → All OnceIn s.convs
    → All OnceIn (do_moves moves s).convs
unfolding do_moves
do_moves-Once [] s g = g
do_moves-Once ((m, now) ∷ moves) s g = do_moves-Once moves (do_move m now s) (
    do_move-Good OnceIn (λ c d p. alike_Once c.msgs d.msgs) (λ peer t. tt)
      (λ id text burn mode t c h. Once-append c.msgs _ h (λ mine. cc)) m now s
      (move_Arrives m now s) g)

-- After any run from a state without conversations, however often the server sends a message again, no
-- conversation holds two received messages with the same id.
pub received-Once :
    (moves : List (Move × ℕ)) (start : ChatState)
    → start.convs ≡ []
    → (c : ChatConv) → Memᴰ c (do_moves moves start).convs
    → Once c.msgs
received-Once moves start empty c at_c =
    All-at OnceIn (do_moves moves start).convs c (do_moves-Once moves start (rw empty tt)) at_c
