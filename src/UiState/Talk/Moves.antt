-- ===== src/UiState/Talk/Moves.antt =====
-- ui/state/chatstate*.go: everything that changes the conversations, in the order in which the mutex
-- serves it.
use vayu_mail_mobile.Base.{ℕ, ◌≡◌, refl, Bool, List, [], ◌∷◌, ◌++◌, Bytes}
use vayu_mail_mobile.UiState.Talk.{ChatState}
use vayu_mail_mobile.Chat.Events.{Event}
use vayu_mail_mobile.UiState.Talk.Events.{apply, stop, manager_started, ensure_started}
use vayu_mail_mobile.UiState.Talk.Actions.{
  message_sent, reveal_message, set_verified, open_conversation, close_conversation,
}

pub data Move : Type 0 where
  event : Event → Move
  sent : (peer text : Bytes) (burn : ℕ) (mode id : Bytes) → Move
  revealed : (peer id : Bytes) → Move
  verified : (peer : Bytes) (verdict : Bool) → Move
  room_opened : (peer : Bytes) → Move
  closed : Move
  stopped : Move
  bound : (account : ℕ) → Move
  started : Move

unfoldable pub do_move : Move → ℕ → ChatState → ChatState
do_move (event e) now s = apply e now s
do_move (sent peer text burn mode id) now s = message_sent peer text burn mode id now s
do_move (revealed peer id) now s = reveal_message peer id now s
do_move (verified peer verdict) now s = set_verified peer verdict s
do_move (room_opened peer) now s = open_conversation peer now s
do_move closed now s = close_conversation s
do_move stopped now s = stop s
do_move (bound account) now s = ensure_started account s
do_move started now s = manager_started s

unfoldable pub do_moves : List (Move × ℕ) → ChatState → ChatState
do_moves [] s = s
do_moves ((m, now) ∷ moves) s = do_moves moves (do_move m now s)

pub do_moves-append :
    (a b : List (Move × ℕ)) (s : ChatState) → do_moves (a ++ b) s ≡ do_moves b (do_moves a s)
unfolding do_moves
do_moves-append [] b s = refl
do_moves-append ((m, now) ∷ a) b s = do_moves-append a b (do_move m now s)
