-- ===== src/UiState/Talk/Authentic.antt =====
-- ui/state/chatstate_events.go, applyIncoming: what a received message that carries no warning rests on.
use vayu_mail_mobile.Base.{
  ℕ, ◌≡◌, ◌≢◌, refl, sym, ap, ◌∙◌, Bool, true, false, ◌&&◌, ◌||◌, not, none, some, List, [], ◌∷◌,
  ◌++◌, Bytes, eq_bytes, append_assoc, Bool-cases, inl, inr, All, All-append, All-at, Memᴰ,
  eq_bytes_sound, arith,
}
use vayu_mail_mobile.UiState.Talk.{
  ChatMessage, ChatConv, ChatState, normal_peer, new_conv, has_message, find_conv,
}
use vayu_mail_mobile.Chat.Events.{IncomingMessage, incoming}
use vayu_mail_mobile.UiState.Talk.Events.{same_key, is_suspect, is_set, new_message, receive}
use vayu_mail_mobile.UiState.Talk.Actions.{add_sent}
use vayu_mail_mobile.UiState.Talk.Alike.{AllAlike}
use vayu_mail_mobile.UiState.Talk.Moves.{Move, event, do_move, do_moves, do_moves-append}
use vayu_mail_mobile.UiState.Talk.Keeps.{Arrives, do_move-Good}

-- the relay says that the signature holds and, when the user has verified a key of the peer, it is by
-- that key
abbrev pub Genuine : IncomingMessage → ChatState → Type 0
Genuine e s =
    (e.authentic ≡ true)
    × ((c : ChatConv)
        → find_conv (normal_peer e.peer) s.convs ≡ some c
        → c.verified ≡ true
        → c.fingerprint ≢ []
        → same_key e.sender_fingerprint c.fingerprint ≡ true)

-- one of the moves brought the message, genuinely
abbrev pub Vouched : List (Move × ℕ) → ChatState → Bytes → ChatMessage → Type 0
Vouched moves start peer m =
    (e : IncomingMessage) × (now : ℕ) × (before : List (Move × ℕ)) × (after : List (Move × ℕ))
    × (moves ≡ before ++ (event (incoming e), now) ∷ after)
    × (normal_peer e.peer ≡ peer)
    × (e.id ≡ m.id)
    × (e.plaintext ≡ m.text)
    × Genuine e (do_moves before start)

trusted_lem :
    (a v f k : Bool)
    → (not a || (v && f && not k)) ≡ false
    → (a ≡ true) × (v ≡ true → f ≡ true → k ≡ true)
trusted_lem a v f k h = ground arith

is_set_lem : (s : Bytes) → s ≢ [] → is_set s ≡ true
is_set_lem [] h = absurd (h refl)
is_set_lem (c ∷ s) h = refl

find_peer :
    (peer : Bytes) (cs : List ChatConv) (c : ChatConv) → find_conv peer cs ≡ some c → c.peer ≡ peer
unfolding find_conv
find_peer peer [] c e = cc
find_peer peer (d ∷ cs) c e = elim (Bool-cases (eq_bytes d.peer peer)) [
  | inl same ↦
      let f : some d ≡ some c = rw same at e in
      let g : d ≡ c = cc in sym (ap (λ x. x.peer) g) ∙ eq_bytes_sound d.peer peer same
  | inr other ↦ find_peer peer cs c (rw other at e)
]

module _ (moves : List (Move × ℕ)) (start : ChatState) where
  -- every message of the conversation that carries no warning is vouched for
  abbrev Backed : Bytes → ChatMessage → Type 0
  Backed peer m = m.self ≡ false → m.unauthenticated ≡ false → Vouched moves start peer m

  abbrev AllBacked : ChatConv → Type 0
  AllBacked c = All (Backed c.peer) c.msgs

  alike_Backed :
      (peer : Bytes) (ms ns : List ChatMessage)
      → AllAlike ms ns
      → All (Backed peer) ms
      → All (Backed peer) ns
  alike_Backed peer [] [] h g = tt
  alike_Backed peer [] (n ∷ ns) h g = absurd h
  alike_Backed peer (m ∷ ms) [] h g = absurd h
  alike_Backed peer (m ∷ ms) (n ∷ ns) (a, h) (gm, g) = (
    (λ mine doubt.
        let (e, now, before, after, split, from, i, t, genuine) =
          gm (sym a.same_self ∙ mine) (sym a.same_doubt ∙ doubt) in
        (e, now, before, after, split, from, i ∙ sym a.same_id, t ∙ sym a.same_text, genuine)),
    alike_Backed peer ms ns h g,
  )

  alike_AllBacked :
      (c d : ChatConv) → d.peer ≡ c.peer → AllAlike c.msgs d.msgs → AllBacked c → AllBacked d
  alike_AllBacked c d p h g = rw p (alike_Backed c.peer c.msgs d.msgs h g)

  sent_AllBacked :
      (id text : Bytes) (burn : ℕ) (mode : Bytes) (now : ℕ) (c : ChatConv)
      → AllBacked c
      → AllBacked (add_sent id text burn mode now c)
  sent_AllBacked id text burn mode now c g =
      All-append (Backed c.peer) c.msgs _ g ((λ mine doubt. cc), tt)

  receive-AllBacked :
      (e : IncomingMessage) (now : ℕ) (active : Bytes) (before after : List (Move × ℕ))
      (c : ChatConv)
      → moves ≡ before ++ (event (incoming e), now) ∷ after
      → normal_peer e.peer ≡ c.peer
      → (is_suspect e c ≡ false → Genuine e (do_moves before start))
      → AllBacked c
      → AllBacked (receive e now active c)
  unfolding receive new_message
  receive-AllBacked e now active before after c split from genuine g =
      elim (Bool-cases (has_message e.id c.msgs)) [
        | inl known ↦ rw known g
        | inr new ↦ rw new (
            All-append (Backed c.peer) c.msgs _ g
              ((λ mine doubt. (e, now, before, after, split, from, refl, refl, genuine doubt)), tt))
      ]

  found-Genuine :
      (e : IncomingMessage) (s : ChatState) (c : ChatConv)
      → find_conv (normal_peer e.peer) s.convs ≡ some c
      → is_suspect e c ≡ false
      → Genuine e s
  unfolding is_suspect
  found-Genuine e s c found h =
      let (a, v) =
        trusted_lem e.authentic c.verified (is_set c.fingerprint)
          (same_key e.sender_fingerprint c.fingerprint) h in
      (a, λ d found' ok key. let g : c ≡ d = cc in (rw g at v) ok (is_set_lem d.fingerprint key))

  none-Genuine :
      (e : IncomingMessage) (now : ℕ) (s : ChatState)
      → find_conv (normal_peer e.peer) s.convs ≡ none
      → is_suspect e (new_conv (normal_peer e.peer) now) ≡ false
      → Genuine e s
  unfolding is_suspect
  none-Genuine e now s missing h = (ground arith, λ d found. cc)

  move_Arrives :
      (m : Move) (now : ℕ) (before after : List (Move × ℕ))
      → moves ≡ before ++ (m, now) ∷ after
      → Arrives AllBacked m now (do_moves before start)
  move_Arrives (event (incoming e)) now before after split =
      let s = do_moves before start in
      (
        (λ c found.
            receive-AllBacked e now s.active_peer before after c split
              (sym (find_peer (normal_peer e.peer) s.convs c found)) (found-Genuine e s c found)),
        (λ missing.
            receive-AllBacked e now s.active_peer before after _ split refl
              (none-Genuine e now s missing) tt),
      )
  move_Arrives _ now before after split = tt

  do_moves-AllBacked :
      (before after : List (Move × ℕ))
      → moves ≡ before ++ after
      → All AllBacked (do_moves before start).convs
      → All AllBacked (do_moves after (do_moves before start)).convs
  unfolding do_moves
  do_moves-AllBacked before [] split g = g
  do_moves-AllBacked before ((m, now) ∷ after) split g =
      let one = (m, now) ∷ [] in
      let next : do_moves (before ++ one) start ≡ do_move m now (do_moves before start) =
        do_moves-append before one start in
      let good =
        do_move-Good AllBacked alike_AllBacked (λ peer t. tt) sent_AllBacked m now
          (do_moves before start) (move_Arrives m now before after split) g in
      let rest =
        do_moves-AllBacked (before ++ one) after (split ∙ sym (append_assoc before one after))
          (rw next good) in
      rw next at rest

-- After any run from a state without conversations, each received message that is shown without a
-- warning came with one of the run's events, to the conversation that it stands in, with that id and
-- that text; the event said that its signature is valid, and if the conversation was verified just
-- before it, with a fingerprint, then the signing key had that fingerprint.
pub no_warning-Vouched :
    (moves : List (Move × ℕ)) (start : ChatState)
    → start.convs ≡ []
    → (c : ChatConv) (m : ChatMessage) → Memᴰ c (do_moves moves start).convs
    → Memᴰ m c.msgs
    → m.self ≡ false
    → m.unauthenticated ≡ false
    → Vouched moves start c.peer m
unfolding do_moves
no_warning-Vouched moves start empty c m at_c at_m =
    All-at (Backed moves start c.peer) c.msgs m
      (All-at (AllBacked moves start) (do_moves moves start).convs c
        (do_moves-AllBacked moves start [] moves refl (rw empty tt)) at_c)
      at_m
