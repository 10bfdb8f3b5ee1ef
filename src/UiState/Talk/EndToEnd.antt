-- ===== src/UiState/Talk/EndToEnd.antt =====
-- internal/chat and ui/state/chatstate*.go together: from the stream of the server to the message on the
-- screen.
use vayu_mail_mobile.Base.{
  ℕ, ◌≡◌, ◌≢◌, refl, sym, ap, ◌∙◌, Bool, true, false, Option, some, List, [], ◌∷◌, ◌++◌, Bytes,
  Memᴰ, if◌then◌else◌,
}
use vayu_mail_mobile.Chat.Events.{IncomingMessage, incoming}
use vayu_mail_mobile.Chat.Stream.{StreamEvent, Envelope, envelope}
use vayu_mail_mobile.Chat.Manager.{
  Decrypted, SignatureStatus, sig_none, sig_valid, sig_invalid, sig_unknown_key, Config, Manager,
  is_valid,
}
use vayu_mail_mobile.Chat.Manager.Incoming.{handle_all, message_of}
use vayu_mail_mobile.Chat.Manager.Origin.{reported-Opened}
use vayu_mail_mobile.UiState.Talk.{ChatMessage, ChatConv, ChatState, normal_peer, find_conv}
use vayu_mail_mobile.UiState.Talk.Events.{same_key}
use vayu_mail_mobile.UiState.Talk.Moves.{Move, event, do_moves}
use vayu_mail_mobile.UiState.Talk.Authentic.{no_warning-Vouched}

-- the message is a validly signed envelope of the stream, decrypted; where the conversation was verified
-- when it came, the signing key is the verified one
abbrev pub SignedOrigin :
    {K : Type 0}
    → Config K
    → List (StreamEvent (Option ℕ))
    → List (Move × ℕ)
    → ChatState
    → Bytes
    → ChatMessage
    → Type 0
SignedOrigin {K} C evs moves start peer m =
    (v : Envelope (Option ℕ)) × (raw : Bytes) × (keys : K) × (d : Decrypted) × Memᴰ (envelope v) evs
    × (C.decode_base64 v.ciphertext ≡ some raw)
    × (C.decrypt keys raw ≡ some d)
    × (d.signature ≡ sig_valid)
    × (m.text ≡ d.plaintext)
    × (m.id ≡ v.id)
    × (normal_peer v.from ≡ peer)
    × ((before : List (Move × ℕ)) × (now : ℕ) × (after : List (Move × ℕ)) × (moves
          ≡ before ++ (event (incoming (message_of v d)), now) ∷ after)
        × ((c : ChatConv)
            → find_conv (normal_peer v.from) (do_moves before start).convs ≡ some c
            → c.verified ≡ true
            → c.fingerprint ≢ []
            → same_key d.signed_by c.fingerprint ≡ true))

module _ {A : Type 0} where
  middle : (before after : List A) (x : A) → Memᴰ x (before ++ x ∷ after)
  middle [] after x = Memᴰ.head refl
  middle (y ∷ before) after x = Memᴰ.tail (middle before after x)

is_valid_sound : (s : SignatureStatus) → is_valid s ≡ true → s ≡ sig_valid
is_valid_sound sig_valid h = refl
is_valid_sound sig_none h = cc
is_valid_sound sig_invalid h = cc
is_valid_sound sig_unknown_key h = cc

valid_signer : (b : Bool) (s : Bytes) → b ≡ true → (if b then s else []) ≡ s
valid_signer b s e = rw e refl

-- The engine hands its events over and the screens fold them in, from no conversations: each received
-- message that is shown without a warning is the decryption of an envelope of the stream whose signature
-- the keyring found valid, by the verified key where the conversation was verified when it came.
pub shown_SignedOrigin :
    {K : Type 0} (C : Config K) (evs : List (StreamEvent (Option ℕ))) (engine : Manager K)
    (moves : List (Move × ℕ)) (start : ChatState)
    → engine.events ≡ []
    → ((e : IncomingMessage) (now : ℕ)
        → Memᴰ (event (incoming e), now) moves
        → Memᴰ (incoming e) (handle_all C evs engine).events)
    → start.convs ≡ []
    → (c : ChatConv) (m : ChatMessage) → Memᴰ c (do_moves moves start).convs
    → Memᴰ m c.msgs
    → m.self ≡ false
    → m.unauthenticated ≡ false
    → SignedOrigin C evs moves start c.peer m
unfolding message_of
shown_SignedOrigin C evs engine moves start drained handed empty c m at_c at_m received trusted =
    let (e, now, before, after, split, from, i, t, (a, key)) =
      no_warning-Vouched moves start empty c m at_c at_m received trusted in
    let (v, raw, keys, d, came, decoded, opened, made) =
      reported-Opened C evs engine e drained
        (handed e now (rw split (middle before after (event (incoming e), now)))) in
    let valid : is_valid d.signature ≡ true = (rw made at a) in
    let signer = valid_signer (is_valid d.signature) d.signed_by valid in
    let key' = rw made at key in
    (
      v,
      raw,
      keys,
      d,
      came,
      decoded,
      opened,
      is_valid_sound d.signature valid,
      sym t ∙ ap (λ x. x.plaintext) made,
      sym i ∙ ap (λ x. x.id) made,
      ap (λ x. normal_peer x.peer) (sym made) ∙ from,
      (
        before,
        now,
        after,
        rw made at split,
        λ c' found ok key_set. rw signer at key' c' found ok key_set,
      ),
    )
