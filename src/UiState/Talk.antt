-- ===== src/UiState/Talk.antt =====
-- ui/state/chatstate.go: the conversations of VayuTalk as the screens see them. The map of conversations
-- is a list, whose order stands for the order in which Go happens to walk the map. Times are nanoseconds;
-- a zero time.Time is none.
pub mod Events
pub mod Actions
pub mod Authentic
pub mod Ids
pub mod Moves
pub mod Alike
pub mod Keeps
pub mod EndToEnd
pub mod Delivery
use vayu_mail_mobile.Base.{
  ℕ, suc, ◌+◌, ◌-◌, ◌*◌, ◌/◌, ◌%◌, Bool, true, false, ◌||◌, Option, none, some, List, [], ◌∷◌, ◌++◌,
  map, ℤ, pos, negsuc, of_bits, int64_mod, Bytes, codes, eq_bytes, lower, trim_space, ltb, ◌==◌,
  if◌then◌else◌, min, max,
}

abbrev pub second : ℕ
second = 1000000000

abbrev pub min_burn_seconds : ℕ
min_burn_seconds = 5

abbrev pub max_burn_seconds : ℕ
max_burn_seconds = 3600

pub data MsgStatus : Type 0 where
  msg_sending msg_sent msg_queued msg_read msg_sealed msg_open msg_expired : MsgStatus

pub record ChatMessage : Type 0 where
  pub id : Bytes
  pub peer : Bytes
  pub self : Bool
  pub text : Bytes
  pub created_at : ℕ
  pub expires_at : Option ℤ
  pub armed_at : Option ℕ
  pub burn_seconds : ℤ
  pub mode : Bytes
  pub status : MsgStatus
  pub revealed : Bool
  pub unauthenticated : Bool

pub record ChatConv : Type 0 where
  pub peer : Bytes
  pub fingerprint : Bytes
  pub verified : Bool
  pub unread : ℕ
  pub last_activity : ℕ
  pub msgs : List ChatMessage

-- `connected` says that a manager is bound. `notified` are the peers that were passed to
-- OnIncoming
pub record ChatState : Type 0 where
  pub bound_id : ℕ
  pub connected : Bool
  pub transitioning : Bool
  pub online : Bool
  pub active_peer : Bytes
  pub convs : List ChatConv
  pub notified : List Bytes

-- `strings.ToLower(strings.TrimSpace(peer))`
unfoldable pub normal_peer : Bytes → Bytes
unfolding lower trim_space
normal_peer peer = map lower (trim_space peer)

-- the seconds that a message lives once it is read
abbrev pub default_if_none : ℤ → ℕ
default_if_none (pos n) = if ltb 0 n then n else 300
default_if_none (negsuc _) = 300

unfoldable pub burn_seconds_of : ChatMessage → ℕ
burn_seconds_of m =
    default_if_none (if eq_bytes m.mode (codes "live") then pos 5 else m.burn_seconds)

-- `time.Duration(secs) * time.Second` in an int64
unfoldable pub burn_duration : ChatMessage → ℤ
unfolding burn_seconds_of
burn_duration m = of_bits (burn_seconds_of m * second % int64_mod)

-- `now.Add(d)`
abbrev pub after : ℕ → ℤ → ℤ
after now (pos d) = pos (now + d)
after now (negsuc d) = if ltb d now then pos (now - d - 1) else negsuc (d - now)

unfoldable pub arm : ℕ → ChatMessage → ChatMessage
unfolding burn_duration
arm now m = record m { armed_at = some now; expires_at = some (after now (burn_duration m)) }

-- `clampBurn`, of a duration that is not negative, in seconds
unfoldable pub clamp_burn : ℕ → ℕ
clamp_burn d = min (max (d / second) min_burn_seconds) max_burn_seconds

abbrev pub new_conv : Bytes → ℕ → ChatConv
new_conv peer now = record {
  peer = peer;
  fingerprint = [];
  verified = false;
  unread = 0;
  last_activity = now;
  msgs = [];
}

-- `f` of the record that `conv` finds or creates
unfoldable pub with_conv : Bytes → ℕ → (ChatConv → ChatConv) → List ChatConv → List ChatConv
with_conv peer now f [] = f (new_conv peer now) ∷ []
with_conv peer now f (c ∷ cs) =
    let rest = with_conv peer now f cs in if eq_bytes c.peer peer then f c ∷ cs else c ∷ rest

-- `f` of the record of a peer, if there is one
unfoldable pub on_conv : Bytes → (ChatConv → ChatConv) → List ChatConv → List ChatConv
on_conv peer f [] = []
on_conv peer f (c ∷ cs) =
    let rest = on_conv peer f cs in if eq_bytes c.peer peer then f c ∷ cs else c ∷ rest

unfoldable pub has_message : Bytes → List ChatMessage → Bool
has_message id [] = false
has_message id (m ∷ ms) = eq_bytes m.id id || has_message id ms

unfoldable pub find_conv : Bytes → List ChatConv → Option ChatConv
find_conv peer [] = none
find_conv peer (c ∷ cs) = if eq_bytes c.peer peer then some c else find_conv peer cs

-- the first message with the id is changed
unfoldable pub change_message :
    Bytes → (ChatMessage → ChatMessage) → List ChatMessage → List ChatMessage
change_message id f [] = []
change_message id f (m ∷ ms) =
    let rest = change_message id f ms in if eq_bytes m.id id then f m ∷ ms else m ∷ rest

-- `setStatusByID`: in the first conversation that has the message
unfoldable pub set_status_by_id :
    Bytes → ℕ → (ChatMessage → ChatMessage) → List ChatConv → List ChatConv
set_status_by_id id now f [] = []
set_status_by_id id now f (c ∷ cs) =
    let rest = set_status_by_id id now f cs in
    if has_message id c.msgs
    then record c { msgs = change_message id f c.msgs; last_activity = now } ∷ cs
    else c ∷ rest
