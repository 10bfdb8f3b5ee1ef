-- ===== src/UiState/Nav/Motion.antt =====
-- The slide transition of nav.go.
use native.Mathlib.Nat.{le_trans, mul-le-mul_left, mul-le-mul_right}
use vayu_mail_mobile.Base.{
  ℕ, ◌-◌, ◌*◌, ◌≡◌, ◌≤◌, ◌↔◌, Bool, true, false, leb, arith, Bool-cases, inl, inr, refl,
}
use vayu_mail_mobile.UiState.Nav.{Nav, duration, eased, transition}

cube_mono : (a b : ℕ) → a ≤ b → a * a * a ≤ b * b * b
cube_mono a b h =
    let square : a * a ≤ b * b = le_trans (mul-le-mul_right a h) (mul-le-mul_left b h) in
    le_trans (mul-le-mul_right a square) (mul-le-mul_left (b * b) h)

eased_mono : (b : Bool) (d x y : ℕ) → x ≤ y → eased b x d ≤ eased b y d
eased_mono true d x y h = omega (arith, cube_mono (d - y) (d - x) (omega arith))
eased_mono false d x y h = cube_mono x y h

eased-le : (b : Bool) (d x : ℕ) → x ≤ d → eased b x d ≤ d * d * d
eased-le true d x h = omega arith
eased-le false d x h = cube_mono x d h

-- Between two frames of one transition, the earlier at `t`, the later at `u`: progress stays in the unit
-- interval and never runs backwards (as cross products of the two fractions), the direction is kept,
-- and the transition is over exactly from the moment its duration has passed.
pub transition_progress :
    (t u : ℕ) (n : Nav)
    → n.animating ≡ true
    → t ≤ u
    → let a = (transition t n).0 in
      let b = (transition u n).0 in
      (a.numerator ≤ a.denominator)
      × (a.numerator * b.denominator ≤ b.numerator * a.denominator)
      × ((a.done ≡ true) ↔ (duration n.pushing ≤ t - n.anim_start))
      × (a.entering ≡ b.entering)
unfolding transition
transition_progress t u n moving h =
    let d = duration n.pushing in
    let x = t - n.anim_start in
    let y = u - n.anim_start in
    let later : x ≤ y = omega arith in
    let cross = mul-le-mul_right (d * d * d) (eased_mono n.pushing d x y later) in
    elim (Bool-cases (leb d x)) [
      | inl past ↦
          let past' : leb d y ≡ true = ground arith in
          rw (moving, past, past')
            (omega arith, omega arith, ((λ _. ground arith), (λ _. refl)), refl)
      | inr under_way ↦
          let le = eased-le n.pushing d x (ground arith) in
          elim (Bool-cases (leb d y)) [
            | inl past' ↦
                rw (moving, under_way, past')
                  (le, omega (arith, le), ((λ e. cc), (λ l. ground arith)), refl)
            | inr moving' ↦
                rw (moving, under_way, moving') (le, cross, ((λ e. cc), (λ l. ground arith)), refl)
          ]
    ]
