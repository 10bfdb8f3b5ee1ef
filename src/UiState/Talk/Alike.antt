-- ===== src/UiState/Talk/Alike.antt =====
-- ui/state/chatstate_events.go and chatstate_ops.go: a change of status leaves the origin of a message
-- alone.
use vayu_mail_mobile.Base.{
  ℕ, ◌≡◌, refl, Bool, true, false, ◌&&◌, not, Option, none, some, List, [], ◌∷◌, ℤ, Bytes, eq_bytes,
  if◌then◌else◌, Bool-cases, inl, inr,
}
use vayu_mail_mobile.UiState.Talk.{msg_read, msg_open, ChatMessage, arm, change_message}
use vayu_mail_mobile.UiState.Talk.Events.{mark_read, arm_unless}
use vayu_mail_mobile.UiState.Talk.Actions.{reveal, reveal_all}

-- what an event or an action leaves alone in a message that is there
pub record Alike (m n : ChatMessage) : Type 0 where
  pub same_id : n.id ≡ m.id
  pub same_self : n.self ≡ m.self
  pub same_text : n.text ≡ m.text
  pub same_doubt : n.unauthenticated ≡ m.unauthenticated

abbrev pub AllAlike : List ChatMessage → List ChatMessage → Type 0
AllAlike [] [] = Unit
AllAlike [] (n ∷ ns) = ⊥
AllAlike (m ∷ ms) [] = ⊥
AllAlike (m ∷ ms) (n ∷ ns) = Alike m n × AllAlike ms ns

alike : (m : ChatMessage) → Alike m m
alike m = record { same_id = refl; same_self = refl; same_text = refl; same_doubt = refl }

pub all_alike : (ms : List ChatMessage) → AllAlike ms ms
all_alike [] = tt
all_alike (m ∷ ms) = (alike m, all_alike ms)

pub change-Alike :
    (id : Bytes) (f : ChatMessage → ChatMessage) (ms : List ChatMessage)
    → ((m : ChatMessage) → Alike m (f m))
    → AllAlike ms (change_message id f ms)
unfolding change_message
change-Alike id f [] h = tt
change-Alike id f (m ∷ ms) h = elim (Bool-cases (eq_bytes m.id id)) [
  | inl same ↦ rw same (h m, all_alike ms)
  | inr other ↦ rw other (alike m, change-Alike id f ms h)
]

arm_unless-Alike :
    (o : Option ℤ) (now : ℕ) (m n : ChatMessage) → Alike m n → Alike m (arm_unless o now n)
unfolding arm
arm_unless-Alike (some t) now m n h = h
arm_unless-Alike none now m n h = record {
  same_id = h.same_id;
  same_self = h.same_self;
  same_text = h.same_text;
  same_doubt = h.same_doubt;
}

pub mark_read-Alike : (now : ℕ) (m : ChatMessage) → Alike m (mark_read now m)
mark_read-Alike now m =
    arm_unless-Alike m.expires_at now m (record m { status = msg_read })
      (record { same_id = refl; same_self = refl; same_text = refl; same_doubt = refl })

if-Alike : (b : Bool) (m n : ChatMessage) → Alike m n → Alike m (if b then n else m)
if-Alike true m n h = h
if-Alike false m n h = alike m

reveal-Alike : (id : Bytes) (now : ℕ) (m : ChatMessage) → Alike m (reveal id now m)
unfolding arm
reveal-Alike id now m =
    if-Alike (eq_bytes m.id id && not m.self) m
      (arm now (record m { revealed = true; status = msg_open }))
      (record { same_id = refl; same_self = refl; same_text = refl; same_doubt = refl })

pub reveal_all-Alike :
    (id : Bytes) (now : ℕ) (ms : List ChatMessage) → AllAlike ms (reveal_all id now ms)
unfolding reveal_all
reveal_all-Alike id now [] = tt
reveal_all-Alike id now (m ∷ ms) = (reveal-Alike id now m, reveal_all-Alike id now ms)
