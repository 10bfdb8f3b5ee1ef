-- ===== src/Smtpsend/Outbox/Selection.antt =====
-- Which entries a pass attempts: those that `DueOutbox` selects, in whatever order.
use vayu_mail_mobile.Base.{
  ℕ, ◌≡◌, Bool, false, ◌&&◌, List, [], ◌∷◌, ◌==◌, ==_iff, keep, leb, All, arith, Bool-cases, inl,
  inr, refl, sym, ◌∙◌,
}
use vayu_mail_mobile.Store.Db.{OutboxEntry}
use vayu_mail_mobile.Store.Outbox.{by_queued_at, insert_queued}
use vayu_mail_mobile.Store.Outbox.Order.{All-by_queued_at, All-insert_queued}
use vayu_mail_mobile.Smtpsend.Outbox.{World}
use vayu_mail_mobile.Store.Outbox.Ids.{Distinct}
use vayu_mail_mobile.Smtpsend.Outbox.Settle.{attempted, Matches}

attempted-insert_queued :
    (w : World) (e : OutboxEntry) (entries : List OutboxEntry) (id : ℕ)
    → attempted w (insert_queued e entries) id ≡ attempted w (e ∷ entries) id
unfolding attempted insert_queued
attempted-insert_queued w e [] id = refl
attempted-insert_queued w e (f ∷ entries) id = elim (Bool-cases (leb e.queued_at f.queued_at)) [
  | inl first ↦ rw first
  | inr later ↦ rw later (rw (attempted-insert_queued w e entries id) (ground arith))
]

pub attempted-by_queued_at :
    (w : World) (entries : List OutboxEntry) (id : ℕ)
    → attempted w (by_queued_at entries) id ≡ attempted w entries id
unfolding attempted by_queued_at
attempted-by_queued_at w [] id = refl
attempted-by_queued_at w (e ∷ entries) id =
    attempted-insert_queued w e (by_queued_at entries) id
    ∙ unfold attempted in rw (attempted-by_queued_at w entries id)

pub All-keep :
    (P : OutboxEntry → Type 0) (p : OutboxEntry → Bool) (rows : List OutboxEntry)
    → All P rows
    → All P (keep p rows)
All-keep P p [] h = tt
All-keep P p (r ∷ rows) (x, h) = elim (Bool-cases (p r)) [
  | inl hit ↦ rw hit (x, All-keep P p rows h)
  | inr miss ↦ rw miss (All-keep P p rows h)
]

pub Distinct-keep :
    (p : OutboxEntry → Bool) (rows : List OutboxEntry) → Distinct rows → Distinct (keep p rows)
Distinct-keep p [] h = tt
Distinct-keep p (r ∷ rows) (ne, h) = elim (Bool-cases (p r)) [
  | inl hit ↦ rw hit (All-keep (λ f. (f.id ≡ r.id) → ⊥) p rows ne, Distinct-keep p rows h)
  | inr miss ↦ rw miss (Distinct-keep p rows h)
]

Distinct-insert_queued :
    (e : OutboxEntry) (rows : List OutboxEntry)
    → All (λ f. (f.id ≡ e.id) → ⊥) rows
    → Distinct rows
    → Distinct (insert_queued e rows)
unfolding insert_queued
Distinct-insert_queued e [] ne h = (tt, tt)
Distinct-insert_queued e (f ∷ rows) (n, ne) (m, h) =
    elim (Bool-cases (leb e.queued_at f.queued_at)) [
      | inl first ↦ rw first ((n, ne), (m, h))
      | inr later ↦ rw later (
        All-insert_queued (λ g. (g.id ≡ f.id) → ⊥) e rows (λ i. n (sym i)) m,
        Distinct-insert_queued e rows ne h,
      )
    ]

pub Distinct-by_queued_at : (rows : List OutboxEntry) → Distinct rows → Distinct (by_queued_at rows)
unfolding by_queued_at
Distinct-by_queued_at [] h = tt
Distinct-by_queued_at (e ∷ rows) (ne, h) =
    Distinct-insert_queued e (by_queued_at rows) (All-by_queued_at (λ f. (f.id ≡ e.id) → ⊥) rows ne)
      (Distinct-by_queued_at rows h)

Matches-other :
    (e : OutboxEntry) (rows : List OutboxEntry) → All (λ f. (f.id ≡ e.id) → ⊥) rows → Matches rows e
Matches-other e [] ne = tt
Matches-other e (f ∷ rows) (n, ne) = ((λ i. absurd (n i)), Matches-other e rows ne)

All-Matches_cons :
    (e : OutboxEntry) (entries rows : List OutboxEntry)
    → All (λ f. (f.id ≡ e.id) → ⊥) entries
    → All (Matches rows) entries
    → All (Matches (e ∷ rows)) entries
All-Matches_cons e [] rows ne h = tt
All-Matches_cons e (f ∷ entries) rows (n, ne) (m, h) =
    (((λ i. absurd (n (sym i))), m), All-Matches_cons e entries rows ne h)

pub All-Matches_self : (rows : List OutboxEntry) → Distinct rows → All (Matches rows) rows
All-Matches_self [] h = tt
All-Matches_self (e ∷ rows) (ne, h) = (
  ((λ _. refl), Matches-other e rows ne),
  All-Matches_cons e rows rows ne (All-Matches_self rows h),
)

pub attempted_none :
    (w : World) (p : OutboxEntry → Bool) (rows : List OutboxEntry) (id : ℕ)
    → All (λ f. (f.id ≡ id) → ⊥) rows
    → attempted w (keep p rows) id ≡ false
unfolding attempted
attempted_none w p [] id h = refl
attempted_none w p (f ∷ rows) id (n, h) =
    ground (arith, attempted_none w p rows id h, ==_iff id f.id, n)

attempted_weaken :
    (w : World) (p : OutboxEntry → Bool) (e : OutboxEntry) (all rows : List OutboxEntry)
    → All (λ f. (f.id ≡ e.id) → ⊥) rows
    → All (λ r. attempted w (keep p all) r.id ≡ (r.account_id == w.account && p r)) rows
    → All (λ r. attempted w (keep p (e ∷ all)) r.id ≡ (r.account_id == w.account && p r)) rows
unfolding attempted
attempted_weaken w p e all [] ne h = tt
attempted_weaken w p e all (r ∷ rows) (n, ne) (x, h) =
    (ground (arith, ==_iff r.id e.id, n, x), attempted_weaken w p e all rows ne h)

-- of distinct entries, those are attempted that are selected and belong to the account
pub attempted_selected :
    (w : World) (p : OutboxEntry → Bool) (rows : List OutboxEntry)
    → Distinct rows
    → All (λ r. attempted w (keep p rows) r.id ≡ (r.account_id == w.account && p r)) rows
unfolding attempted
attempted_selected w p [] h = tt
attempted_selected w p (e ∷ rows) (ne, h) = (
  ground (arith, attempted_none w p rows e.id ne),
  attempted_weaken w p e rows rows ne (attempted_selected w p rows h),
)
