-- ===== src/Chat/Manager/Calls.antt =====
-- internal/chat: the engine as the application drives it, one call after the other.
use vayu_mail_mobile.Base.{ℕ, Bool, Option, List, [], ◌∷◌, Bytes}
use vayu_mail_mobile.Chat.Events.{Event}
use vayu_mail_mobile.Chat.Stream.{Codec}
use vayu_mail_mobile.Chat.Manager.{Config, Manager}
use vayu_mail_mobile.Chat.Manager.Operations.{
  manager_send, manager_ack, set_peer_verified, verify_peer,
}
use vayu_mail_mobile.Chat.Manager.Incoming.{run}

-- a call of the engine; `take_event` is the screens' receive on the channel
pub data Call : Type 0 where
  call_send : (peer plaintext : Bytes) (burn : ℕ) (mode : Bytes) → Call
  call_ack : (id : Bytes) → Call
  call_verify_peer : (peer : Bytes) → Call
  call_set_verified : (fingerprint : Bytes) (verified : Bool) → Call
  call_turns : (turns backoff : ℕ) → Call
  call_take_event : Call

module _ {K : Type 0} (C : Config K) (codec : Codec (Option ℕ)) where
  abbrev drop_first : List Event → List Event
  drop_first [] = []
  drop_first (ev ∷ evs) = evs

  unfoldable pub do_call : Call → Manager K → Manager K
  do_call (call_send peer plaintext burn mode) m = (manager_send C peer plaintext burn mode m).1
  do_call (call_ack id) m = (manager_ack C id m).1
  do_call (call_verify_peer peer) m = (verify_peer C peer m).1
  do_call (call_set_verified fingerprint verified) m =
      (set_peer_verified C fingerprint verified m).1
  do_call (call_turns n backoff) m = (run C codec n backoff m).1
  do_call call_take_event m = record m { events = drop_first m.events }

  unfoldable pub do_calls : List Call → Manager K → Manager K
  do_calls [] m = m
  do_calls (c ∷ cs) m = do_calls cs (do_call c m)
