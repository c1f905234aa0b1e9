-- ===== src/Prelude/Outcome.antt =====
-- How a call ends: a method that waits for a mutex that its caller holds never returns, and a
-- failed type assertion or an index out of range is a panic.
use mathlib.Core.Path.{◌≡◌, refl, ap}
use mathlib.Core.Option.{Option, none, some}

pub data Outcome {ℓ} (A : Type ℓ) : Type ℓ where
  blocked : Outcome A
  panicked : Outcome A
  done : A → Outcome A

infixl 1 ◌>>=◌
abbrev pub ◌>>=◌ {ℓ μ} : {A : Type ℓ} → {B : Type μ} → Outcome A → (A → Outcome B) → Outcome B
blocked >>= f = blocked
panicked >>= f = panicked
done a >>= f = f a

-- A type assertion without the second result.
abbrev pub asserted {ℓ} : {A : Type ℓ} → Option A → Outcome A
asserted none = panicked
asserted (some a) = done a

value_or {ℓ} : {A : Type ℓ} → A → Outcome A → A
value_or a (done b) = b
value_or a _ = a

pub done-injective {ℓ} : {A : Type ℓ} {a b : A} → done a ≡ done b → a ≡ b
unfolding value_or
done-injective {a} e = ap (value_or a) e

-- A bind that returns.
pub >>=-eq-done {ℓ μ} :
    {A : Type ℓ} {B : Type μ} (o : Outcome A) (f : A → Outcome B) {b : B}
    → (o >>= f) ≡ done b
    → (a : A) × (o ≡ done a) × (f a ≡ done b)
>>=-eq-done blocked f e = cc
>>=-eq-done panicked f e = cc
>>=-eq-done (done a) f e = (a, refl, e)
