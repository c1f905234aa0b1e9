-- ===== src/Prelude/Assoc.antt =====
-- Go maps as association lists. The list's order stands for the order in which `range` visits
-- the entries, so a theorem about every list is one about every order.
use Prim.Native.Nat.{◌+◌}
use mathlib.Core.Path.{◌≡◌, refl}
use mathlib.Core.Logic.{inl, inr}
use mathlib.Core.List.{List, [], ◌∷◌, ◌++◌}
use mathlib.Core.Option.{Option, none, some}
use native.Mathlib.Omega.{arith}
use mmo_game.Prelude.Tests.{if◌then◌else◌, Bool-cases}
use mmo_game.Prelude.Lists.{length, All}
use mmo_game.Prelude.Classes.{EqTest, beq_self, beq_cases}

module _ {ℓ κ} {K : Type ℓ} {V : Type κ} ⦃e : EqTest K⦄ where
  unfoldable pub lookup : K → List (K × V) → Option V
  lookup k [] = none
  lookup k ((j, v) ∷ m) = if e.test j k then some v else lookup k m

  unfoldable pub insert : K → V → List (K × V) → List (K × V)
  insert k v [] = (k, v) ∷ []
  insert k v ((j, w) ∷ m) = if e.test j k then (k, v) ∷ m else (j, w) ∷ insert k v m

  unfoldable pub delete : K → List (K × V) → List (K × V)
  delete k [] = []
  delete k ((j, w) ∷ m) = let rest = delete k m in if e.test j k then rest else (j, w) ∷ rest

module _ {ℓ κ} {K : Type ℓ} {V : Type κ} ⦃e : EqTest K⦄ where
  lookup_step :
      (j k : K) (v : V) (m : List (K × V))
      → lookup k ((j, v) ∷ m) ≡ (if e.test j k then some v else lookup k m)
  unfolding lookup
  lookup_step j k v m = refl

  -- Reading after a write.
  pub lookup-insert :
      (j k : K) (v : V) (m : List (K × V))
      → lookup j (insert k v m) ≡ (if e.test k j then some v else lookup j m)
  unfolding lookup insert
  lookup-insert j k v [] = refl
  lookup-insert j k v ((i, w) ∷ m) = elim (beq_cases e i k) [
    | inl (h, p) ↦ rw (h, lookup_step k j v m, p) (ground arith)
    | inr h ↦
        rw h (ground (arith, lookup-insert j k v m, e.test_iff k j, e.test_iff i j, e.test_iff i k))
  ]

  pub lookup-insert_self : (k : K) (v : V) (m : List (K × V)) → lookup k (insert k v m) ≡ some v
  lookup-insert_self k v m = rw (lookup-insert k k v m, beq_self e k)

  pub lookup-delete :
      (j k : K) (m : List (K × V))
      → lookup j (delete k m) ≡ (if e.test k j then none else lookup j m)
  unfolding lookup delete
  lookup-delete j k [] = ground arith
  lookup-delete j k ((i, w) ∷ m) =
      ground (arith, lookup-delete j k m, e.test_iff k j, e.test_iff i j, e.test_iff i k)

  -- A property of every entry.
  pub All-insert {μ} :
      (P : K × V → Type μ) (k : K) (v : V) (m : List (K × V))
      → P (k, v)
      → All P m
      → All P (insert k v m)
  unfolding insert
  All-insert P k v [] p h = (p, tt)
  All-insert P k v ((i, w) ∷ m) p h = elim (Bool-cases (e.test i k)) [
    | inl t ↦ rw t (p, h.1)
    | inr t ↦ rw t (h.0, All-insert P k v m p h.1)
  ]

  pub All-delete {μ} :
      (P : K × V → Type μ) (k : K) (m : List (K × V)) → All P m → All P (delete k m)
  unfolding delete
  All-delete P k [] h = tt
  All-delete P k ((i, w) ∷ m) h = elim (Bool-cases (e.test i k)) [
    | inl t ↦ rw t (All-delete P k m h.1)
    | inr t ↦ rw t (h.0, All-delete P k m h.1)
  ]

  pub All-lookup {μ} :
      (P : K × V → Type μ) (k : K) (v : V) (m : List (K × V))
      → All P m
      → lookup k m ≡ some v
      → P (k, v)
  unfolding lookup
  All-lookup P k v [] h q = cc
  All-lookup P k v ((i, w) ∷ m) h q = elim (beq_cases e i k) [
    | inl (t, p) ↦ let r : w ≡ v = ground arith in rw (← p, ← r) h.0
    | inr t ↦ All-lookup P k v m h.1 (rw t at q)
  ]

  -- A write of a key that is there keeps the map's size; any other adds one.
  pub length-insert :
      (k : K) (v : V) (m : List (K × V))
      → length (insert k v m) ≡ elim (lookup k m) [ none ↦ length m + 1 | some _ ↦ length m ]
  unfolding lookup insert
  length-insert k v [] = omega arith
  length-insert k v ((i, w) ∷ m) = ground (arith, length-insert k v m)

  -- Where a key that is found stands.
  pub lookup-split :
      (k : K) (v : V) (m : List (K × V))
      → lookup k m ≡ some v
      → (before : List (K × V)) × (after : List (K × V)) × (m ≡ before ++ (k, v) ∷ after)
  unfolding lookup
  lookup-split k v [] q = cc
  lookup-split k v ((i, w) ∷ m) q = elim (beq_cases e i k) [
    | inl (t, p) ↦ let r : w ≡ v = ground arith in ([], m, λ j. (p j, r j) ∷ m)
    | inr t ↦
        let (before, after, s) = lookup-split k v m (rw t at q) in
        ((i, w) ∷ before, after, λ j. (i, w) ∷ s j)
  ]
