-- ===== src/Smtpsend/Outbox/Settle.antt =====
-- What a pass makes of the outbox table, said row by row and with no order of processing.
use vayu_mail_mobile.Base.{
  ℕ, ◌≡◌, Bool, true, false, ◌&&◌, ◌||◌, Option, none, some, List, [], ◌∷◌, Bytes, ◌==◌, ==_iff,
  if◌then◌else◌, All, arith, Bool-cases, inl, inr, refl, ap, ◌∙◌,
}
use vayu_mail_mobile.Store.Db.{OutboxEntry}
use vayu_mail_mobile.Store.Outbox.{failed_entry, delete_entry, update_entry}
use vayu_mail_mobile.Smtpsend.Outbox.{World, backoff, unix_after}

-- a row that was attempted: gone if it was sent, else with one more retry and its next time
abbrev pub fate_of : World → OutboxEntry → Option Bytes → Option OutboxEntry
fate_of w e none = none
fate_of w e (some message) =
    some (failed_entry message (unix_after (w.failed_at e) (backoff e.retry_count)) e)

abbrev pub fate : World → OutboxEntry → Option OutboxEntry
fate w e = fate_of w e (w.outcome e)

abbrev pub put_row : Option OutboxEntry → List OutboxEntry → List OutboxEntry
put_row none rows = rows
put_row (some e) rows = e ∷ rows

-- every row that passes the test meets its fate, the others stay
unfoldable pub settle : World → (OutboxEntry → Bool) → List OutboxEntry → List OutboxEntry
settle w p [] = []
settle w p (e ∷ rows) = put_row (if p e then fate w e else some e) (settle w p rows)

-- an id of the account's entries
unfoldable pub attempted : World → List OutboxEntry → ℕ → Bool
attempted w [] id = false
attempted w (e ∷ entries) id = (e.account_id == w.account && id == e.id) || attempted w entries id

-- the row with the entry's id is the entry
abbrev pub Matches : List OutboxEntry → OutboxEntry → Type 0
Matches rows e = All (λ r. (r.id ≡ e.id) → (r ≡ e)) rows

-- what `record_outcome` does to the table
abbrev pub attempt_of : World → OutboxEntry → Option Bytes → List OutboxEntry → List OutboxEntry
attempt_of w e none rows = delete_entry e.id rows
attempt_of w e (some message) rows =
    update_entry e.id (failed_entry message (unix_after (w.failed_at e) (backoff e.retry_count)))
      rows

pub settle_cong :
    (w : World) (p q : OutboxEntry → Bool) (rows : List OutboxEntry)
    → All (λ r. p r ≡ q r) rows
    → settle w p rows ≡ settle w q rows
unfolding settle
settle_cong w p q [] h = refl
settle_cong w p q (r ∷ rows) (e, h) = rw (e, settle_cong w p q rows h)

attempt_row :
    (w : World) (e r : OutboxEntry) (o : Option Bytes) (rows : List OutboxEntry)
    → r.id ≡ e.id
    → r ≡ e
    → w.outcome e ≡ o
    → attempt_of w e o (r ∷ rows) ≡ put_row (fate w r) (attempt_of w e o rows)
unfolding delete_entry update_entry
attempt_row w e r none rows same eq out =
    let f : fate w r ≡ none = ap (fate w) eq ∙ ap (fate_of w e) out in
    rw (f, (==_iff r.id e.id).1 same)
attempt_row w e r (some message) rows same eq out =
    let f : fate w r ≡ fate_of w e (some message) = ap (fate w) eq ∙ ap (fate_of w e) out in
    let next = failed_entry message (unix_after (w.failed_at e) (backoff e.retry_count)) in
    rw (f, (==_iff r.id e.id).1 same)
      (ap (λ (x : OutboxEntry). next x ∷ update_entry e.id next rows) eq)

other_row :
    (w : World) (e r : OutboxEntry) (o : Option Bytes) (rows : List OutboxEntry)
    → (r.id == e.id) ≡ false
    → attempt_of w e o (r ∷ rows) ≡ r ∷ attempt_of w e o rows
unfolding delete_entry update_entry
other_row w e r none rows other = rw other
other_row w e r (some message) rows other = rw other

no_row : (w : World) (e : OutboxEntry) (o : Option Bytes) → attempt_of w e o [] ≡ []
unfolding delete_entry update_entry
no_row w e none = refl
no_row w e (some message) = refl

pub attempt-settle :
    (w : World) (e : OutboxEntry) (o : Option Bytes) (rows : List OutboxEntry)
    → Matches rows e
    → w.outcome e ≡ o
    → attempt_of w e o rows ≡ settle w (λ r. r.id == e.id) rows
unfolding settle
attempt-settle w e o [] h out = no_row w e o
attempt-settle w e o (r ∷ rows) (same_row, h) out =
    let ih = attempt-settle w e o rows h out in
    elim (Bool-cases (r.id == e.id)) [
      | inl same ↦
          let i = (==_iff r.id e.id).0 same in
          attempt_row w e r o rows i (same_row i) out ∙ rw (same, ih)
      | inr other ↦ other_row w e r o rows other ∙ rw (other, ih)
    ]

fate_id :
    (w : World) (r : OutboxEntry) (o : Option Bytes) (p : ℕ → Bool) (rows : List OutboxEntry)
    → p r.id ≡ false
    → settle w (λ x. p x.id) (put_row (fate_of w r o) rows)
      ≡ put_row (fate_of w r o) (settle w (λ x. p x.id) rows)
unfolding settle
fate_id w r none p rows h = refl
fate_id w r (some message) p rows h = rw h

-- two tests of ids that no id passes both settle one after the other as their disjunction does
pub settle-settle :
    (w : World) (p q : ℕ → Bool) (rows : List OutboxEntry)
    → ((id : ℕ) → p id ≡ true → q id ≡ false)
    → settle w (λ x. q x.id) (settle w (λ x. p x.id) rows) ≡ settle w (λ x. p x.id || q x.id) rows
unfolding settle
settle-settle w p q [] h = refl
settle-settle w p q (r ∷ rows) h = elim (Bool-cases (p r.id)) [
  | inl hit ↦ rw hit (
      fate_id w r (w.outcome r) q (settle w (λ x. p x.id) rows) (h r.id hit)
      ∙ ap (put_row (fate w r)) (settle-settle w p q rows h))
  | inr miss ↦ rw miss (rw (settle-settle w p q rows h))
]

-- a row that is not attempted still matches the other entries
Matches-put_row :
    (w : World) (r : OutboxEntry) (o : Option Bytes) (e : OutboxEntry) (rows : List OutboxEntry)
    → (r.id ≡ e.id → ⊥)
    → Matches rows e
    → Matches (put_row (fate_of w r o) rows) e
Matches-put_row w r none e rows ne h = h
Matches-put_row w r (some message) e rows ne h = ((λ i. absurd (ne i)), h)

pub Matches-settle :
    (w : World) (e f : OutboxEntry) (rows : List OutboxEntry)
    → (f.id ≡ e.id → ⊥)
    → Matches rows f
    → Matches (settle w (λ r. r.id == e.id) rows) f
unfolding settle
Matches-settle w e f [] ne h = tt
Matches-settle w e f (r ∷ rows) ne (same_row, h) = elim (Bool-cases (r.id == e.id)) [
  | inl hit ↦ rw hit (
      Matches-put_row w r (w.outcome r) f _ (λ i. ne (omega (arith, i, (==_iff r.id e.id).0 hit)))
        (Matches-settle w e f rows ne h))
  | inr miss ↦ rw miss (same_row, Matches-settle w e f rows ne h)
]

pub settle_none : (w : World) (rows : List OutboxEntry) → settle w (λ r. false) rows ≡ rows
unfolding settle
settle_none w [] = refl
settle_none w (r ∷ rows) = rw (settle_none w rows)
