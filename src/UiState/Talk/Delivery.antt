-- ===== src/UiState/Talk/Delivery.antt =====
-- ui/state/chatstate_ops.go, SendMessage, and the event that the engine emits before its Send returns:
-- what the order of the two does to the state of the message.
use vayu_mail_mobile.Base.{
  ℕ, ◌≡◌, refl, ap, Bool, true, false, Option, none, some, List, [], ◌∷◌, ◌++◌, Bytes, eq_bytes,
  codes, Bool-cases, inl, inr, All, eq_bytes_refl, if◌then◌else◌,
}
use vayu_mail_mobile.UiState.Talk.{
  MsgStatus, msg_sending, msg_queued, msg_sent, ChatMessage, ChatConv, ChatState, normal_peer,
  new_conv, has_message, with_conv, set_status_by_id, change_message,
}
use vayu_mail_mobile.Chat.Events.{delivered}
use vayu_mail_mobile.UiState.Talk.Events.{apply, mark_delivered}
use vayu_mail_mobile.UiState.Talk.Actions.{add_sent, message_sent, sent_message}

-- the state of the first message with the id
abbrev status_in : Bytes → List ChatMessage → Option MsgStatus
status_in id [] = none
status_in id (m ∷ ms) =
    let rest = status_in id ms in if eq_bytes m.id id then some m.status else rest

abbrev pub status_of : Bytes → List ChatConv → Option MsgStatus
status_of id [] = none
status_of id (c ∷ cs) =
    let rest = status_of id cs in if has_message id c.msgs then status_in id c.msgs else rest

abbrev pub Unknown : Bytes → ChatConv → Type 0
Unknown id c = has_message id c.msgs ≡ false

set_status_by_id-Unknown :
    (id : Bytes) (now : ℕ) (f : ChatMessage → ChatMessage) (cs : List ChatConv)
    → All (Unknown id) cs
    → set_status_by_id id now f cs ≡ cs
unfolding set_status_by_id
set_status_by_id-Unknown id now f [] h = refl
set_status_by_id-Unknown id now f (c ∷ cs) (hc, h) =
    rw hc (ap (λ t. c ∷ t) (set_status_by_id-Unknown id now f cs h))

has_message-append :
    (id : Bytes) (ms : List ChatMessage) (m : ChatMessage)
    → m.id ≡ id
    → has_message id (ms ++ m ∷ []) ≡ true
unfolding has_message
has_message-append id [] m e = rw e (rw (eq_bytes_refl id) refl)
has_message-append id (x ∷ ms) m e = elim (Bool-cases (eq_bytes x.id id)) [
  | inl same ↦ rw same refl
  | inr other ↦ rw other (has_message-append id ms m e)
]

-- the last message, when no other has its id
changed_last :
    (id : Bytes) (f : ChatMessage → ChatMessage) (ms : List ChatMessage) (m : ChatMessage)
    → has_message id ms ≡ false
    → m.id ≡ id
    → change_message id f (ms ++ m ∷ []) ≡ ms ++ f m ∷ []
unfolding has_message change_message
changed_last id f [] m h e = rw e (rw (eq_bytes_refl id) refl)
changed_last id f (x ∷ ms) m h e = elim (Bool-cases (eq_bytes x.id id)) [
  | inl same ↦ cc (rw same at h)
  | inr other ↦ rw other (ap (λ t. x ∷ t) (changed_last id f ms m (rw other at h) e))
]

status_last :
    (id : Bytes) (ms : List ChatMessage) (m : ChatMessage)
    → has_message id ms ≡ false
    → m.id ≡ id
    → status_in id (ms ++ m ∷ []) ≡ some m.status
unfolding has_message
status_last id [] m h e = rw e (rw (eq_bytes_refl id) refl)
status_last id (x ∷ ms) m h e = elim (Bool-cases (eq_bytes x.id id)) [
  | inl same ↦ cc (rw same at h)
  | inr other ↦ rw other (status_last id ms m (rw other at h) e)
]

module _ (id text mode peer : Bytes) (burn now : ℕ) where
  abbrev add : ChatConv → ChatConv
  add = add_sent id text burn mode now

  abbrev mine : ChatConv → ChatMessage
  mine c = sent_message id text burn mode now c

  sent_status :
      (cs : List ChatConv)
      → All (Unknown id) cs
      → status_of id (with_conv peer now add cs) ≡ some msg_sending
  unfolding with_conv has_message
  sent_status [] h =
      rw (has_message-append id [] (mine (new_conv peer now)) refl)
        (status_last id [] (mine (new_conv peer now)) refl refl)
  sent_status (c ∷ cs) (hc, h) = elim (Bool-cases (eq_bytes c.peer peer)) [
    | inl same ↦
        rw same
          (rw (has_message-append id c.msgs (mine c) refl) (status_last id c.msgs (mine c) hc refl))
    | inr other ↦ rw other (rw hc (sent_status cs h))
  ]

  abbrev handed_over : MsgStatus
  handed_over = if eq_bytes mode (codes "store") then msg_queued else msg_sent

  delivered_first :
      (c : ChatConv) (cs : List ChatConv) (later : ℕ)
      → has_message id c.msgs ≡ false
      → status_of id (set_status_by_id id later mark_delivered (add c ∷ cs)) ≡ some handed_over
  unfolding set_status_by_id
  delivered_first c cs later h = rw (has_message-append id c.msgs (mine c) refl) (
      rw (changed_last id mark_delivered c.msgs (mine c) h refl) (
        rw (has_message-append id c.msgs (mark_delivered (mine c)) refl)
          (status_last id c.msgs (mark_delivered (mine c)) h refl)))

  delivered_status :
      (cs : List ChatConv) (later : ℕ)
      → All (Unknown id) cs
      → status_of id (set_status_by_id id later mark_delivered (with_conv peer now add cs))
        ≡ some handed_over
  unfolding with_conv set_status_by_id has_message
  delivered_status [] later h = delivered_first (new_conv peer now) [] later refl
  delivered_status (c ∷ cs) later (hc, h) = elim (Bool-cases (eq_bytes c.peer peer)) [
    | inl same ↦ rw same (delivered_first c cs later hc)
    | inr other ↦ rw other (rw hc (rw hc (delivered_status cs later h)))
  ]

-- For an id that is new to the conversations: when the event that the server took the message is folded
-- in after the message was recorded, the message is shown as sent, or as queued in the store mode; when
-- it is folded in before, which the engine makes possible since it emits the event before Send returns,
-- it changes nothing, and the message is recorded as still sending.
pub delivery_order :
    (peer text mode id : Bytes) (burn early now later : ℕ) (done : Bool) (s : ChatState)
    → All (Unknown id) s.convs
    → (status_of id
          (apply (delivered id done) later (message_sent peer text burn mode id now s)).convs
        ≡ some (if eq_bytes mode (codes "store") then msg_queued else msg_sent))
      × (apply (delivered id done) early s ≡ s)
      × (status_of id
            (message_sent peer text burn mode id now (apply (delivered id done) early s)).convs
          ≡ some msg_sending)
unfolding apply message_sent
delivery_order peer text mode id burn early now later done s new =
    let nothing : set_status_by_id id early mark_delivered s.convs ≡ s.convs =
      set_status_by_id-Unknown id early mark_delivered s.convs new in
    (
      delivered_status id text mode (normal_peer peer) burn now s.convs later new,
      ap (λ t. record s { convs = t }) nothing,
      rw nothing (sent_status id text mode (normal_peer peer) burn now s.convs new),
    )
