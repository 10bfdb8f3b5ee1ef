-- ===== src/Chat/ManagerTests.antt =====
-- The engine of VayuTalk at concrete inputs.
use vayu_mail_mobile.Base.{refl, List, [], ◌∷◌, codes}
use vayu_mail_mobile.Chat.Transport.Proper.{Traffic}
use vayu_mail_mobile.Chat.Manager.{second}
use vayu_mail_mobile.Chat.Manager.Calls.{Call, call_send, call_turns, call_verify_peer, do_calls}
use vayu_mail_mobile.Chat.Manager.Session.{Order}
use vayu_mail_mobile.Chat.Manager.Wire.{do_calls-Traffic}
use vayu_mail_mobile.Chat.Manager.Incoming.{handle_all}
use vayu_mail_mobile.Chat.Manager.Incoming.Cooldown.{Spaced, handle_all-Spaced}
use vayu_mail_mobile.Chat.StandIns.{server, config, idle_engine, json, stream}

abbrev a_day : List Call
a_day =
    call_send (codes "a@b.cd") (codes "hi") 30 (codes "live")
    ∷ call_turns 2 second
    ∷ call_verify_peer (codes "a@b.cd")
    ∷ []

do_calls-Traffic_example :
    Traffic server
      (codes "b.cd")
      (Order config a_day)
      (do_calls config json a_day idle_engine).requests
do_calls-Traffic_example = do_calls-Traffic config json a_day idle_engine refl refl

handle_all-Spaced_example :
    let m = handle_all config stream idle_engine in Spaced m.fetches m.next_resync
handle_all-Spaced_example = handle_all-Spaced config stream idle_engine refl
