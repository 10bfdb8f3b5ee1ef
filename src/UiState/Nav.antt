-- ===== src/UiState/Nav.antt =====
-- ui/state/nav.go: the navigation stack. The last entry of the list is the screen on top; an index out
-- of range, which Go answers by a panic, is none. Times are nanoseconds of the monotonic clock, so
-- `now` is never before the start of an animation.
pub mod Stack
pub mod Motion
use vayu_mail_mobile.Base.{
  ℕ, zero, suc, ◌+◌, ◌-◌, ◌*◌, ◌^◌, ◌≡◌, Bool, true, false, Option, none, some, List, [], ◌∷◌, ◌++◌,
  ℤ, pos, length, leb, ltb, ◌==◌, if◌then◌else◌, arith, refl,
}

pub data Screen : Type 0 where
  inbox thread compose setup settings search_screen lock talk talk_room talk_verify : Screen

-- the values that `iota` gives
abbrev pub screen_no : Screen → ℕ
screen_no inbox = 0
screen_no thread = 1
screen_no compose = 2
screen_no setup = 3
screen_no settings = 4
screen_no search_screen = 5
screen_no lock = 6
screen_no talk = 7
screen_no talk_room = 8
screen_no talk_verify = 9

abbrev pub same_screen : Screen → Screen → Bool
same_screen a b = screen_no a == screen_no b

pub record Rect : Type 0 where
  pub min_x : ℤ
  pub min_y : ℤ
  pub max_x : ℤ
  pub max_y : ℤ

abbrev pub no_rect : Rect
no_rect = record { min_x = pos 0; min_y = pos 0; max_x = pos 0; max_y = pos 0 }

abbrev pub push_duration : ℕ
push_duration = 200 * 10 ^ 6

abbrev pub pop_duration : ℕ
pop_duration = 150 * 10 ^ 6

pub record Nav : Type 0 where
  pub stack : List Screen
  pub anim_start : ℕ
  pub pushing : Bool
  pub animating : Bool
  pub leaving : Screen
  pub hero_armed : Bool
  pub hero_rect : Rect

unfoldable pub arm_hero : Rect → Nav → Nav
arm_hero rect n = record n { hero_rect = rect; hero_armed = true }

-- the rectangle, if one is armed
unfoldable pub take_hero : Nav → Option Rect × Nav
take_hero n =
    if n.hero_armed then (some n.hero_rect, record n { hero_armed = false }) else (none, n)

unfoldable pub new_nav : Screen → Nav
new_nav root = record {
  stack = root ∷ [];
  anim_start = 0;
  pushing = false;
  animating = false;
  leaving = inbox;
  hero_armed = false;
  hero_rect = no_rect;
}

-- n.stack[len(n.stack)-1]
unfoldable pub top : List Screen → Option Screen
top [] = none
top (s ∷ []) = some s
top (s ∷ t ∷ ss) = top (t ∷ ss)

-- n.stack[:len(n.stack)-1]
unfoldable pub below : List Screen → List Screen
below [] = []
below (s ∷ []) = []
below (s ∷ t ∷ ss) = s ∷ below (t ∷ ss)

unfoldable pub current : Nav → Option Screen
current n = top n.stack

unfoldable pub depth : Nav → ℕ
depth n = length n.stack

abbrev first : List Screen → Option Screen
first [] = none
first (s ∷ ss) = some s

unfoldable pub under : Nav → Option Screen
under n = if ltb (length n.stack) 2 then first n.stack else top (below n.stack)

-- the stack behind an effective `Push`, and behind an effective `Pop` of `c`
abbrev pub pushed : Screen → ℕ → Nav → Nav
pushed s now n = record n {
  stack = n.stack ++ s ∷ [];
  anim_start = now;
  pushing = true;
  animating = true;
}

abbrev pub uncovered : Screen → ℕ → Nav → Nav
uncovered c now n = record n {
  leaving = c;
  stack = below n.stack;
  anim_start = now;
  pushing = false;
  animating = true;
  hero_armed = false;
}

abbrev pub push_on : Screen → ℕ → Nav → Option Screen → Option Nav
push_on s now n none = none
push_on s now n (some c) = if same_screen c s then some n else some (pushed s now n)

unfoldable pub push : Screen → ℕ → Nav → Option Nav
unfolding current
push s now n = push_on s now n (current n)

-- the part of `Pop` behind the test of the depth
abbrev pub pop_top : ℕ → Nav → Option Screen → Option (Bool × Nav)
pop_top now n none = none
pop_top now n (some c) = some (true, uncovered c now n)

unfoldable pub pop : ℕ → Nav → Option (Bool × Nav)
unfolding current
pop now n =
    if leb (length n.stack) 1
    then some (false, record n { hero_armed = false })
    else pop_top now n (current n)

unfoldable pub replace : Screen → Nav → Nav
replace root n = record n { stack = root ∷ []; animating = false; hero_armed = false }

-- what `Transition` reports; the progress is the number that the float stands for, as numerator and
-- denominator
pub record Report : Type 0 where
  pub entering : Bool
  pub other : Screen
  pub numerator : ℕ
  pub denominator : ℕ
  pub done : Bool

-- ease-out cubic and ease-in cubic at elapsed/d
abbrev pub eased : Bool → ℕ → ℕ → ℕ
eased true elapsed d = d * d * d - (d - elapsed) * (d - elapsed) * (d - elapsed)
eased false elapsed d = elapsed * elapsed * elapsed

abbrev pub duration : Bool → ℕ
duration true = push_duration
duration false = pop_duration

unfoldable pub transition : ℕ → Nav → Report × Nav
transition now n =
    let d = duration n.pushing in
    if n.animating
    then (if leb d (now - n.anim_start)
        then (
          record {
            entering = n.pushing;
            other = n.leaving;
            numerator = 1;
            denominator = 1;
            done = true;
          },
          record n { animating = false },
        )
        else (
          record {
            entering = n.pushing;
            other = n.leaving;
            numerator = eased n.pushing (now - n.anim_start) d;
            denominator = d * d * d;
            done = false;
          },
          n,
        ))
    else (
      record { entering = false; other = inbox; numerator = 1; denominator = 1; done = true },
      n,
    )
