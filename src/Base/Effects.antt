-- ===== src/Base/Effects.antt =====
-- Go functions that return an `error`, and methods that also write: what was written before an
-- error stays written, so the state comes back beside it.
pub data Result {ℓ κ} (E : Type ℓ) (A : Type κ) : Type (ℓ ⊔ κ) where
  ok : A → Result E A
  err : E → Result E A

abbrev pub Exec : Type 0 → Type 0 → Type 0 → Type 0
Exec S E A = S → Result E A × S

module _ {S E : Type 0} where
  abbrev pub continue : {A B : Type 0} → Result E A → S → (A → Exec S E B) → Result E B × S
  continue (ok a) s k = k a s
  continue (err e) s k = (err e, s)

  -- `if err := m(); err != nil { return err }`
  infixl 5 ◌>>=◌ ◌>>◌
  abbrev pub ◌>>=◌ : {A B : Type 0} → Exec S E A → (A → Exec S E B) → Exec S E B
  ◌>>=◌ m k s = continue (m s).0 (m s).1 k

  abbrev pub ◌>>◌ : {B : Type 0} → Exec S E (Unit {0}) → Exec S E B → Exec S E B
  m >> k = m >>= λ _. k

  abbrev pub pure : {A : Type 0} → A → Exec S E A
  pure a s = (ok a, s)

  abbrev pub raise : {A : Type 0} → E → Exec S E A
  raise e s = (err e, s)

abbrev pub wrap {ℓ κ ι} : {E : Type ℓ} {F : Type κ} {A : Type ι} → (F → E) → Result F A → Result E A
wrap f (ok a) = ok a
wrap f (err e) = err (f e)

-- a method that keeps a property of its state
module _ {S E : Type 0} (Good : S → Type 0) where
  abbrev pub Keeps : {A : Type 0} → Exec S E A → Type 0
  Keeps op = (s : S) → Good s → Good (op s).1

  continue-Keeps :
      {A B : Type 0} (r : Result E A) (s : S) (k : A → Exec S E B)
      → ((a : A) → Keeps (k a))
      → Good s
      → Good (continue r s k).1
  continue-Keeps (ok a) s k h g = h a s g
  continue-Keeps (err e) s k h g = g

  pub bind-Keeps :
      {A B : Type 0} (op : Exec S E A) (k : A → Exec S E B)
      → Keeps op
      → ((a : A) → Keeps (k a))
      → Keeps (op >>= k)
  bind-Keeps op k h hk s g = continue-Keeps (op s).0 (op s).1 k hk (h s g)
