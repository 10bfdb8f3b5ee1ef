-- ===== src/UiState/Decrypt/Once.antt =====
-- A broken copy is fetched again at most once (ui/state/decrypt.go).
use vayu_mail_mobile.Base.{
  contains, ℕ, ◌+◌, ◌≡◌, ◌≤◌, Bool, true, false, ◌||◌, Option, List, [], ◌∷◌, ◌++◌, Bytes, codes,
  trim_space, ◌==◌, if◌then◌else◌, Bool-cases, inl, inr, arith, All,
}
use vayu_mail_mobile.UiState.Decrypt.{
  Message, Opened, Refetches, has, without, is_encrypted_status, is_junk_encrypted_body,
  refetch_state, request_refetch, message_refetched, junk_view, RefetchPhase, refetch_idle,
  refetch_in_flight, refetch_done, decrypt_message, decrypt_thread,
}

-- a thread is shown, or the engine reports that a message was fetched again
pub data Step : Type 0 where
  shown : List Message → (Message → Bool) → Step
  refetched_event : ℕ → Step

module _ (decrypt_from : Bytes → Bytes → Option Opened) where
  unfoldable pub step : Step → Refetches → Refetches
  unfolding decrypt_thread message_refetched
  step (shown thread room) r = (decrypt_thread decrypt_from room thread r).1
  step (refetched_event id) r = message_refetched id r

  unfoldable pub steps : List Step → Refetches → Refetches
  unfolding step
  steps [] r = r
  steps (s ∷ ss) r = steps ss (step s r)

-- how many of the commands are for a message
unfoldable pub asked : ℕ → List (ℕ × ℕ) → ℕ
asked id [] = 0
asked id ((a, j) ∷ q) = let n = asked id q in if j == id then n + 1 else n

asked-append :
    (id a j : ℕ) (q : List (ℕ × ℕ))
    → asked id (q ++ (a, j) ∷ []) ≡ asked id q + (if j == id then 1 else 0)
unfolding asked
asked-append id a j [] = ground arith
asked-append id a j ((b, i) ∷ q) = ground (arith, asked-append id a j q)

has-without :
    (id j : ℕ) (ids : List ℕ) → has id (without j ids) ≡ (if j == id then false else has id ids)
unfolding has without
has-without id j [] = ground arith
has-without id j (i ∷ ids) = ground (arith, has-without id j ids)

-- at most one command was queued for the message, and none unless it is known
abbrev pub Bounded : ℕ → Refetches → Type 0
Bounded id r = asked id r.queued ≤ (if has id r.refetching || has id r.refetched then 1 else 0)

request-Bounded :
    (room : Bool) (id a j : ℕ) (r : Refetches)
    → Bounded id r
    → Bounded id (request_refetch room a j r)
unfolding request_refetch has
request-Bounded room id a j r h = ground (arith, asked-append id a j r.queued)

refetched-Bounded : (id j : ℕ) (r : Refetches) → Bounded id r → Bounded id (message_refetched j r)
unfolding message_refetched has
refetched-Bounded id j r h = ground (arith, has-without id j r.refetching)

-- a property of the bookkeeping that every request keeps is kept by showing a thread
module _ (P : Refetches → Type 0) (decrypt_from : Bytes → Bytes → Option Opened) where
  abbrev Kept : Type 0
  Kept = (room : Bool) (a j : ℕ) (r : Refetches) → P r → P (request_refetch room a j r)

  junk-kept :
      Kept
      → (room : Bool) (m : Message) (p : RefetchPhase) (r : Refetches) → P r
      → P (junk_view room m p r).1
  junk-kept k room m refetch_idle r h = k room m.account_id m.id r h
  junk-kept k room m refetch_in_flight r h = h
  junk-kept k room m refetch_done r h = h

  message-kept :
      Kept
      → (room : Message → Bool) (m : Message) (r : Refetches) → P r
      → P (decrypt_message decrypt_from room m r).1
  unfolding decrypt_message
  message-kept k room m r h =
      let body = trim_space m.body_text in
      elim (Bool-cases (is_encrypted_status m.pgp_status)) [
        | inl e ↦ elim (Bool-cases (contains body (codes "BEGIN PGP MESSAGE"))) [
          | inl armored ↦ rw (e, armored) h
          | inr bare ↦ elim (Bool-cases (is_junk_encrypted_body body)) [
            | inl junk ↦ rw (e, bare, junk) (junk-kept k (room m) m (refetch_state m.id r) r h)
            | inr fine ↦ rw (e, bare, fine) h
          ]
        ]
        | inr plain ↦ rw plain h
      ]

  thread-kept :
      Kept
      → (room : Message → Bool) (ms : List Message) (r : Refetches) → P r
      → P (decrypt_thread decrypt_from room ms r).1
  unfolding decrypt_thread
  thread-kept k room [] r h = h
  thread-kept k room (m ∷ ms) r h =
      thread-kept k room ms (decrypt_message decrypt_from room m r).1 (message-kept k room m r h)

module _ (decrypt_from : Bytes → Bytes → Option Opened) where
  steps-Bounded :
      (id : ℕ) (ss : List Step) (r : Refetches)
      → Bounded id r
      → Bounded id (steps decrypt_from ss r)
  unfolding steps
  steps-Bounded id [] r h = h
  steps-Bounded id (shown thread room ∷ ss) r h =
      steps-Bounded id ss (decrypt_thread decrypt_from room thread r).1
        (thread-kept (Bounded id) decrypt_from (λ b a j. request-Bounded b id a j) room thread r h)
  steps-Bounded id (refetched_event j ∷ ss) r h =
      steps-Bounded id ss (message_refetched j r) (refetched-Bounded id j r h)

  -- However often threads are shown, whatever the engine answers and reports, from a fresh start at most
  -- one command to fetch a message again is queued for it.
  pub refetched_once :
      (id : ℕ) (ss : List Step)
      → asked id
          (steps decrypt_from ss
            (record { refetching = []; refetched = []; queued = []; busy = 0 })).queued
        ≤ 1
  unfolding asked has
  refetched_once id ss =
      let start : Refetches = record { refetching = []; refetched = []; queued = []; busy = 0 } in
      let h = steps-Bounded id ss start (omega arith) in ground (arith, h)

  -- the engine does not report this message
  abbrev pub NotReported : ℕ → Step → Type 0
  NotReported id (shown thread room) = Unit
  NotReported id (refetched_event j) = (j == id) ≡ false

  -- a message in flight for which n commands were queued
  abbrev Waiting : ℕ → ℕ → Refetches → Type 0
  Waiting id n r = (has id r.refetching ≡ true) × (asked id r.queued ≡ n)

  request-Waiting :
      (room : Bool) (id n a j : ℕ) (r : Refetches)
      → Waiting id n r
      → Waiting id n (request_refetch room a j r)
  unfolding request_refetch has
  request-Waiting room id n a j r h = ground (arith, asked-append id a j r.queued)

  reported-Waiting :
      (id n j : ℕ) (r : Refetches)
      → (j == id) ≡ false
      → Waiting id n r
      → Waiting id n (message_refetched j r)
  unfolding message_refetched
  reported-Waiting id n j r o h = ground (arith, has-without id j r.refetching)

  steps-Waiting :
      (id n : ℕ) (ss : List Step) (r : Refetches)
      → All (NotReported id) ss
      → Waiting id n r
      → Waiting id n (steps decrypt_from ss r)
  unfolding steps
  steps-Waiting id n [] r _ h = h
  steps-Waiting id n (shown thread room ∷ ss) r (_, o) h =
      steps-Waiting id n ss (decrypt_thread decrypt_from room thread r).1 o (
        thread-kept (Waiting id n) decrypt_from (λ b a j. request-Waiting b id n a j) room thread r
          h)
  steps-Waiting id n (refetched_event j ∷ ss) r (e, o) h =
      steps-Waiting id n ss (message_refetched j r) o (reported-Waiting id n j r e h)

  refused :
      (id a : ℕ) (r : Refetches)
      → refetch_state id r ≡ refetch_idle
      → Waiting id (asked id r.queued) (request_refetch false a id r)
  unfolding refetch_state request_refetch has
  refused id a r i = ground arith

  in_flight :
      (id : ℕ) (r : Refetches) → has id r.refetching ≡ true → refetch_state id r ≡ refetch_in_flight
  unfolding refetch_state
  in_flight id r h = rw h

  -- When the engine does not take the command, the message counts as in flight from then on, and no
  -- command is queued for it by showing threads, as long as the engine does not report it.
  pub refused_refetch :
      (id a : ℕ) (ss : List Step) (r : Refetches)
      → refetch_state id r ≡ refetch_idle
      → All (NotReported id) ss
      → let after = steps decrypt_from ss (request_refetch false a id r) in
        (refetch_state id after ≡ refetch_in_flight) × (asked id after.queued ≡ asked id r.queued)
  refused_refetch id a ss r i o =
      let w =
        steps-Waiting id (asked id r.queued) ss (request_refetch false a id r) o
          (refused id a r i) in
      (in_flight id (steps decrypt_from ss (request_refetch false a id r)) w.0, w.1)
