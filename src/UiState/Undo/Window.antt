-- ===== src/UiState/Undo/Window.antt =====
-- ui/state/actions.go and internal/store/outbox.go: what the window of ten seconds does not hold back.
use vayu_mail_mobile.Base.{
  ℕ, ◌≤◌, ◌≡◌, refl, Bool, true, some, List, [], ◌∷◌, ◌++◌, Bytes, ok, keep, leb, le→leb, Memᴰ,
  Bool-cases, inl, inr,
}
use vayu_mail_mobile.Store.Db.{Db, OutboxEntry, statement}
use vayu_mail_mobile.Store.Outbox.{
  next_id, new_entry, enqueue_outbox, is_due, insert_queued, by_queued_at, due_outbox,
  mark_outbox_sent,
}
use vayu_mail_mobile.UiState.Undo.{send_cancelled, armed, enqueue_draft, undo}

insert_itself : (e : OutboxEntry) (rows : List OutboxEntry) → Memᴰ e (insert_queued e rows)
unfolding insert_queued
insert_itself e [] = Memᴰ.head refl
insert_itself e (f ∷ rows) = elim (Bool-cases (leb e.queued_at f.queued_at)) [
  | inl first ↦ rw first (Memᴰ.head refl)
  | inr later ↦ rw later (Memᴰ.tail (insert_itself e rows))
]

insert_others :
    (x e : OutboxEntry) (rows : List OutboxEntry) → Memᴰ x rows → Memᴰ x (insert_queued e rows)
unfolding insert_queued
insert_others x e [] m = elim m [ ]
insert_others x e (f ∷ rows) (Memᴰ.head h) = elim (Bool-cases (leb e.queued_at f.queued_at)) [
  | inl first ↦ rw first (Memᴰ.tail (Memᴰ.head h))
  | inr later ↦ rw later (Memᴰ.head h)
]
insert_others x e (f ∷ rows) (Memᴰ.tail m) = elim (Bool-cases (leb e.queued_at f.queued_at)) [
  | inl first ↦ rw first (Memᴰ.tail (Memᴰ.tail m))
  | inr later ↦ rw later (Memᴰ.tail (insert_others x e rows m))
]

in_queue : (x : OutboxEntry) (rows : List OutboxEntry) → Memᴰ x rows → Memᴰ x (by_queued_at rows)
unfolding by_queued_at
in_queue x [] m = elim m [ ]
in_queue x (e ∷ rows) (Memᴰ.head h) = rw h (insert_itself e (by_queued_at rows))
in_queue x (e ∷ rows) (Memᴰ.tail m) = insert_others x e (by_queued_at rows) (in_queue x rows m)

kept_last :
    (p : OutboxEntry → Bool) (x : OutboxEntry) (rows : List OutboxEntry)
    → p x ≡ true
    → Memᴰ x (keep p (rows ++ x ∷ []))
kept_last p x [] h = rw h (Memᴰ.head refl)
kept_last p x (e ∷ rows) h = elim (Bool-cases (p e)) [
  | inl kept ↦ rw kept (Memᴰ.tail (kept_last p x rows h))
  | inr dropped ↦ rw dropped (kept_last p x rows h)
]

-- A draft is queued while the database takes every statement. Then each pass of the scheduler from that
-- second on, within the undo window too, finds the message due; and when the user takes it back after
-- the pass has sent it and removed its row, the notice says that the send is cancelled.
pub undo_window :
    (account : ℕ) (raw : Bytes) (now pass : ℕ) (db : Db)
    → db.faults ≡ []
    → now ≤ pass
    → let id = next_id db.outbox in
      let queued = enqueue_draft account (some raw) now db in
      let sent = (mark_outbox_sent id queued.1).1 in
      (queued.0 ≡ armed id)
      × ((entries : List OutboxEntry) × ((due_outbox pass queued.1).0 ≡ ok entries)
          × Memᴰ (new_entry id account raw now) entries)
      × ((undo id sent).0 ≡ send_cancelled)
unfolding enqueue_draft enqueue_outbox due_outbox mark_outbox_sent undo statement
undo_window account raw now pass db quiet later =
    let entry = new_entry (next_id db.outbox) account raw now in
    rw quiet (
      refl,
      (
        by_queued_at (keep (is_due pass) (db.outbox ++ entry ∷ [])),
        refl,
        in_queue entry _
            (kept_last (is_due pass) entry db.outbox (rw (le→leb now pass later) refl)),
      ),
      refl,
    )
