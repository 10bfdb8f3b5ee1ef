-- ===== src/UiState/Nav/Stack.antt =====
-- The stack of nav.go over every sequence of calls.
use vayu_mail_mobile.Base.{
  ℕ, ◌+◌, ◌≡◌, ◌<◌, Bool, true, false, Option, none, some, List, [], ◌∷◌, ◌++◌, length,
  length-append, leb, arith, Bool-cases, inl, inr, refl, ap, ◌∙◌,
}
use vayu_mail_mobile.UiState.Nav.{
  Screen, Rect, Nav, same_screen, arm_hero, take_hero, new_nav, top, below, current, pushed,
  uncovered, push, pop, replace, transition,
}

-- a call from the frame loop or a screen
pub data Call : Type 0 where
  call_arm : Rect → Call
  call_take : Call
  call_push : Screen → ℕ → Call
  call_pop : ℕ → Call
  call_replace : Screen → Call
  call_transition : ℕ → Call

abbrev popped : Option (Bool × Nav) → Option Nav
popped none = none
popped (some (b, n)) = some n

pub do_call : Call → Nav → Option Nav
do_call (call_arm r) n = some (arm_hero r n)
do_call call_take n = some (take_hero n).1
do_call (call_push s t) n = push s t n
do_call (call_pop t) n = popped (pop t n)
do_call (call_replace s) n = some (replace s n)
do_call (call_transition t) n = some (transition t n).1

-- the calls in order; none once one has panicked
pub do_calls : List Call → Option Nav → Option Nav
do_calls cs none = none
do_calls [] (some n) = some n
do_calls (c ∷ cs) (some n) = do_calls cs (do_call c n)

-- no screen lies directly on itself
abbrev pub NoRepeat : List Screen → Type 0
NoRepeat [] = Unit
NoRepeat (s ∷ []) = Unit
NoRepeat (s ∷ t ∷ ss) = (same_screen s t ≡ false) × NoRepeat (t ∷ ss)

pub record IsValid (n : Nav) : Type 0 where
  pub nonempty : 0 < length n.stack
  pub no_repeat : NoRepeat n.stack

top_total : (ss : List Screen) → 0 < length ss → (s : Screen) × (top ss ≡ some s)
unfolding top
top_total [] h = absurd (omega arith)
top_total (s ∷ []) h = (s, refl)
top_total (s ∷ t ∷ ss) h = top_total (t ∷ ss) (omega arith)

pub top-snoc : (ss : List Screen) (s : Screen) → top (ss ++ s ∷ []) ≡ some s
unfolding top
top-snoc [] s = refl
top-snoc (a ∷ []) s = refl
top-snoc (a ∷ b ∷ ss) s = top-snoc (b ∷ ss) s

pub below-snoc : (ss : List Screen) (s : Screen) → below (ss ++ s ∷ []) ≡ ss
unfolding below
below-snoc [] s = refl
below-snoc (a ∷ []) s = refl
below-snoc (a ∷ b ∷ ss) s = ap (λ t. a ∷ t) (below-snoc (b ∷ ss) s)

NoRepeat-snoc :
    (ss : List Screen) (c s : Screen)
    → NoRepeat ss
    → top ss ≡ some c
    → same_screen c s ≡ false
    → NoRepeat (ss ++ s ∷ [])
unfolding top
NoRepeat-snoc [] c s h t n = tt
NoRepeat-snoc (a ∷ []) c s h t n = let e : a ≡ c = cc in (rw e n, tt)
NoRepeat-snoc (a ∷ b ∷ ss) c s (m, h) t n = (m, NoRepeat-snoc (b ∷ ss) c s h t n)

NoRepeat-below : (ss : List Screen) → NoRepeat ss → NoRepeat (below ss)
unfolding below
NoRepeat-below [] h = tt
NoRepeat-below (a ∷ []) h = tt
NoRepeat-below (a ∷ b ∷ []) h = tt
NoRepeat-below (a ∷ b ∷ c ∷ ss) (m, h) = (m, NoRepeat-below (b ∷ c ∷ ss) h)

length-below : (ss : List Screen) → 0 < length ss → length (below ss) + 1 ≡ length ss
unfolding below
length-below [] h = absurd (omega arith)
length-below (a ∷ []) h = omega arith
length-below (a ∷ b ∷ ss) h = omega (arith, length-below (b ∷ ss) (omega arith))

push-IsValid :
    (s : Screen) (t : ℕ) (n : Nav) → IsValid n → (m : Nav) × (push s t n ≡ some m) × IsValid m
unfolding push current
push-IsValid s t n v =
    let (c, at) = top_total n.stack v.nonempty in
    elim (Bool-cases (same_screen c s)) [
      | inl same ↦ (n, rw (at, same), v)
      | inr new ↦ (
        pushed s t n,
        rw (at, new),
        record {
          nonempty = omega (arith, length-append n.stack (s ∷ []));
          no_repeat = NoRepeat-snoc n.stack c s v.no_repeat at new;
        },
      )
    ]

pop-IsValid :
    (t : ℕ) (n : Nav) → IsValid n → (b : Bool) × (m : Nav) × (pop t n ≡ some (b, m)) × IsValid m
unfolding pop current
pop-IsValid t n v =
    let (c, at) = top_total n.stack v.nonempty in
    elim (Bool-cases (leb (length n.stack) 1)) [
      | inl root ↦ (
        false,
        record n { hero_armed = false },
        rw root,
        record { nonempty = v.nonempty; no_repeat = v.no_repeat },
      )
      | inr deep ↦ (
        true,
        uncovered c t n,
        rw (deep, at),
        record {
          nonempty = ground (arith, length-below n.stack v.nonempty);
          no_repeat = NoRepeat-below n.stack v.no_repeat;
        },
      )
    ]

do_call-IsValid : (c : Call) (n : Nav) → IsValid n → (m : Nav) × (do_call c n ≡ some m) × IsValid m
unfolding do_call
do_call-IsValid (call_arm r) n v =
    (_, refl, unfold arm_hero in record { nonempty = v.nonempty; no_repeat = v.no_repeat })
do_call-IsValid call_take n v = (_, refl, unfold take_hero in ground arith)
do_call-IsValid (call_push s t) n v = push-IsValid s t n v
do_call-IsValid (call_pop t) n v = let (b, m, e, w) = pop-IsValid t n v in (m, rw e, w)
do_call-IsValid (call_replace s) n v =
    (_, refl, unfold replace in record { nonempty = omega arith; no_repeat = tt })
do_call-IsValid (call_transition t) n v = (_, refl, unfold transition in ground arith)

do_calls-IsValid :
    (cs : List Call) (n : Nav) → IsValid n → (m : Nav) × (do_calls cs (some n) ≡ some m) × IsValid m
unfolding do_calls
do_calls-IsValid [] n v = (n, refl, v)
do_calls-IsValid (c ∷ cs) n v =
    let (m, e, w) = do_call-IsValid c n v in
    let (k, f, x) = do_calls-IsValid cs m w in (k, ap (do_calls cs) e ∙ f, x)

-- Whatever is called on a new stack, and in whatever order, no index is out of range; the stack keeps a
-- screen, so there is a current one, and no screen ever lies directly on itself.
pub calls_from_new :
    (cs : List Call) (root : Screen)
    → (n : Nav) × (s : Screen) × (do_calls cs (some (new_nav root)) ≡ some n)
      × (current n ≡ some s)
      × NoRepeat n.stack
unfolding new_nav current
calls_from_new cs root =
    let (n, e, v) =
      do_calls-IsValid cs (new_nav root) (record { nonempty = omega arith; no_repeat = tt }) in
    let (s, t) = top_total n.stack v.nonempty in (n, s, e, t, v.no_repeat)

-- Popping after a push of another screen than the current one reveals the stack as it was, and the pushed
-- screen is the one that slides out.
pub pop-push :
    (s c : Screen) (t u : ℕ) (n : Nav)
    → current n ≡ some c
    → same_screen c s ≡ false
    → 0 < length n.stack
    → (m : Nav) × (k : Nav) × (push s t n ≡ some m)
      × (current m ≡ some s)
      × (pop u m ≡ some (true, k))
      × (k.stack ≡ n.stack)
      × (k.leaving ≡ s)
unfolding push pop current
pop-push s c t u n at new h =
    let e = top-snoc n.stack s in
    let l = length-append n.stack (s ∷ []) in
    let d : leb (length (n.stack ++ s ∷ [])) 1 ≡ false = ground arith in
    (
      pushed s t n,
      uncovered s u (pushed s t n),
      rw (at, new),
      e,
      rw (d, e),
      below-snoc n.stack s,
      refl,
    )
