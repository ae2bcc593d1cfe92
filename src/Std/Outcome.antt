-- ===== src/Std/Outcome.antt =====
-- What becomes of a C++ call: it returns, it has undefined behaviour, or the fuel of a loop of
-- the model is used up.
use vm_scheduler.Prelude.{◌≡◌, refl}

pub data Outcome {ℓ} (A : Type ℓ) : Type ℓ where
  returns : A → Outcome A
  undefined : Outcome A
  out_of_fuel : Outcome A

infixl 5 ◌>>=◌
abbrev pub ◌>>=◌ {ℓ κ} : {A : Type ℓ} {B : Type κ} → Outcome A → (A → Outcome B) → Outcome B
returns a >>= f = f a
undefined >>= f = undefined
out_of_fuel >>= f = out_of_fuel

-- The call returns, and what it returns has the property.
abbrev pub Returns {ℓ} : {A : Type ℓ} → (A → Type 0) → Outcome A → Type 0
Returns P (returns a) = P a
Returns P undefined = ⊥
Returns P out_of_fuel = ⊥

module _ {ℓ κ} {A : Type ℓ} {B : Type κ} (P : A → Type 0) (Q : B → Type 0) where
  pub Returns-bind :
      (m : Outcome A) (f : A → Outcome B)
      → Returns P m
      → ((a : A) → P a → Returns Q (f a))
      → Returns Q (m >>= f)
  Returns-bind (returns a) f h k = k a h
  Returns-bind undefined f h k = absurd h
  Returns-bind out_of_fuel f h k = absurd h

module _ {ℓ} {A : Type ℓ} (P : A → Type 0) where
  pub Returns-eq : (m : Outcome A) → Returns P m → (a : A) × (m ≡ returns a) × P a
  Returns-eq (returns a) h = (a, refl, h)
  Returns-eq undefined h = absurd h
  Returns-eq out_of_fuel h = absurd h

  pub Returns-mono :
      (Q : A → Type 0) → ((a : A) → P a → Q a) → (m : Outcome A) → Returns P m → Returns Q m
  Returns-mono Q f (returns a) h = f a h
  Returns-mono Q f undefined h = absurd h
  Returns-mono Q f out_of_fuel h = absurd h
