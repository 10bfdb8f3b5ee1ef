-- ===== src/UiState/Tests.antt =====
-- The navigation stack and the undo window at concrete inputs.
use vayu_mail_mobile.Base.{Memᴰ, ok, codes, arith, some, List, [], ◌∷◌, ◌≡◌, refl}
use vayu_mail_mobile.Store.Db.{Db, OutboxEntry}
use vayu_mail_mobile.Store.Outbox.{next_id, new_entry, due_outbox, mark_outbox_sent}
use vayu_mail_mobile.UiState.Undo.{armed, send_cancelled, enqueue_draft, undo}
use vayu_mail_mobile.UiState.Undo.Window.{undo_window}
use vayu_mail_mobile.UiState.Nav.{
  Screen, inbox, thread, settings, Nav, no_rect, new_nav, current, pushed,
}
use vayu_mail_mobile.UiState.Nav.Stack.{
  Call, call_arm, call_push, call_pop, call_replace, do_calls, NoRepeat, calls_from_new,
}

abbrev tour : List Call
tour = call_arm no_rect ∷ call_push thread 1 ∷ call_pop 2 ∷ call_pop 3 ∷ call_replace settings ∷ []

calls_from_new_example :
    (n : Nav) × (s : Screen) × (do_calls tour (some (new_nav inbox)) ≡ some n)
    × (current n ≡ some s)
    × NoRepeat n.stack
calls_from_new_example = calls_from_new tour inbox

abbrev sliding : Nav
sliding = pushed thread 10 (new_nav inbox)

abbrev empty_db : Db
empty_db = record { settings = []; outbox = []; faults = [] }

-- a pass of the scheduler five seconds into the window
undo_window_example :
    let queued = enqueue_draft 1 (some (codes "mail")) 100 empty_db in
    let sent = (mark_outbox_sent 1 queued.1).1 in
    (queued.0 ≡ armed 1)
    × ((entries : List OutboxEntry) × ((due_outbox 105 queued.1).0 ≡ ok entries)
        × Memᴰ (new_entry 1 1 (codes "mail") 100) entries)
    × ((undo 1 sent).0 ≡ send_cancelled)
unfolding next_id
undo_window_example = undo_window 1 (codes "mail") 100 105 empty_db refl (omega arith)
