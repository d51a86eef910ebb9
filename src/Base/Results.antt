-- ===== src/Base/Results.antt =====
-- What a call comes to: it returns; it waits for ever for a mutex that its own thread holds; it goes
-- out of the bounds of a vector; or the rounds allowed to a loop of the model are used up.
use mathlib.Core.Path.{◌≡◌, refl}

pub data Outcome {ℓ} (A : Type ℓ) : Type ℓ where
  done : A → Outcome A
  blocked : Outcome A
  out_of_bounds : Outcome A
  out_of_fuel : Outcome A

infixl 5 ◌>>=◌
abbrev pub ◌>>=◌ {ℓ κ} : {A : Type ℓ} {B : Type κ} → Outcome A → (A → Outcome B) → Outcome B
done a >>= f = f a
blocked >>= f = blocked
out_of_bounds >>= f = out_of_bounds
out_of_fuel >>= f = out_of_fuel

pub >>=-eq-done {ℓ κ} :
    {A : Type ℓ} {B : Type κ} (m : Outcome A) (f : A → Outcome B) {b : B}
    → (m >>= f) ≡ done b
    → (a : A) × (m ≡ done a) × (f a ≡ done b)
>>=-eq-done (done a) f h = (a, refl, h)
>>=-eq-done blocked f h = cc
>>=-eq-done out_of_bounds f h = cc
>>=-eq-done out_of_fuel f h = cc

-- The call returns, with a result that has the property.
abbrev pub Returns {ℓ} : {A : Type ℓ} → (A → Type 0) → Outcome A → Type 0
Returns P (done a) = P a
Returns P blocked = ⊥
Returns P out_of_bounds = ⊥
Returns P out_of_fuel = ⊥

pub Returns-bind {ℓ κ} :
    {A : Type ℓ} {B : Type κ} (P : A → Type 0) (Q : B → Type 0) (m : Outcome A) (f : A → Outcome B)
    → Returns P m
    → ((a : A) → P a → Returns Q (f a))
    → Returns Q (m >>= f)
Returns-bind P Q (done a) f h k = k a h
Returns-bind P Q blocked f h k = h
Returns-bind P Q out_of_bounds f h k = h
Returns-bind P Q out_of_fuel f h k = h

pub done-injective {ℓ} : {A : Type ℓ} (a b : A) → done a ≡ done b → a ≡ b
done-injective a b h = cc
