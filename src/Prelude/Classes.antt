-- ===== src/Prelude/Classes.antt =====
-- Decidable equality of keys, as an interface with instances.
use Prim.Native.Nat.{ℕ}
use Prim.Native.String.{String}
use text.Mathlib.Text.{◌==◌ as string_beq}
use text.Mathlib.TextEquality.{eq_iff}
use mathlib.Core.Path.{◌≡◌, refl}
use mathlib.Core.Logic.{◌↔◌, ◌⊎◌, inl, inr}
use mathlib.Core.Bool.{Bool, true, false}
use mmo_game.Prelude.Tests.{◌==◌ as nat_beq, ==_iff, Bool-cases}

pub record EqTest {ℓ} (K : Type ℓ) : Type ℓ where
  pub test : K → K → Bool
  pub test_iff : (x y : K) → (test x y ≡ true) ↔ (x ≡ y)

instance abbrev pub string_eq : EqTest String
string_eq = record { test_iff = eq_iff; test = string_beq }

instance abbrev pub nat_eq : EqTest ℕ
nat_eq = record { test_iff = ==_iff; test = nat_beq }

-- Go's `==`, at every type with such a test.
abbrev pub ◌==◌ {ℓ} : {K : Type ℓ} ⦃t : EqTest K⦄ → K → K → Bool
◌==◌ ⦃t⦄ x y = t.test x y

infix 50 ◌==◌
-- A key equals itself, and a comparison that fails tells two keys apart.
pub beq_self {ℓ} : {A : Type ℓ} (e : EqTest A) (a : A) → e.test a a ≡ true
beq_self e a = (e.test_iff a a).1 refl

pub beq_cases {ℓ} :
    {A : Type ℓ} (e : EqTest A) (a b : A) → ((e.test a b ≡ true) × (a ≡ b)) ⊎ (e.test a b ≡ false)
beq_cases e a b = elim (Bool-cases (e.test a b)) [
  | inl h ↦ inl (h, (e.test_iff a b).0 h)
  | inr h ↦ inr h
]
