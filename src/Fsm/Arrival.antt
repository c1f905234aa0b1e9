-- ===== src/Fsm/Arrival.antt =====
-- How a wanderer gets to where it goes.
use Prim.Native.Nat.{◌-◌}
use mmo_game.Prelude.{
  ℕ, zero, suc, ◌+◌, ◌<◌, leb, ℤ, pos, negsuc, ◌+ℤ◌, wrap, wrap-add, IsSmall, ltb_ℤ, eq_of_parts,
  pos_part, neg_part, Bool, true, false, some, ◌≡◌, refl, ap, ◌∙◌, inl, inr, Bool-cases, beq_cases,
  int_eq, if◌then◌else◌, arith,
}
use mmo_game.Vec.{Vec2}
use mmo_game.Vec.Float.{FloatOps}
use mmo_game.Fsm.{
  Entity, Draws, wander, toward, next_position, later, at_goal, move_to, stepped, update_state,
  changed, update_in, update,
}

-- How far apart two coordinates are.
abbrev gap : ℤ → ℤ → ℕ
gap a b =
    let up = pos_part a + neg_part b in
    let down = pos_part b + neg_part a in (up - down) + (down - up)

-- One nearer than before, and still no large coordinate.
abbrev Nearer : ℤ → ℤ → ℤ → Type 0
Nearer c a b = (gap c b ≡ gap a b - 1) × IsSmall c

step_up : (a b : ℤ) → IsSmall a → IsSmall b → ltb_ℤ a b ≡ true → Nearer (a +ℤ pos 1) a b
unfolding ◌+ℤ◌
step_up a b sa sb t = (ground arith, (ground arith, ground arith))

step_down : (a b : ℤ) → IsSmall a → IsSmall b → ltb_ℤ b a ≡ true → Nearer (a +ℤ negsuc 0) a b
unfolding ◌+ℤ◌
step_down a b sa sb t = (ground arith, (ground arith, ground arith))

stay : (a b : ℤ) → IsSmall a → ltb_ℤ a b ≡ false → ltb_ℤ b a ≡ false → Nearer (a +ℤ pos 0) a b
unfolding ◌+ℤ◌
stay a b sa f f' = (ground arith, (ground arith, ground arith))

nearer : (a b : ℤ) → IsSmall a → IsSmall b → Nearer (wrap (a +ℤ toward a b)) a b
unfolding toward
nearer a b sa sb = elim (Bool-cases (ltb_ℤ a b)) [
  | inl t ↦ rw (t, wrap-add a (pos 1) sa (omega arith, omega arith)) (step_up a b sa sb t)
  | inr f ↦ elim (Bool-cases (ltb_ℤ b a)) [
    | inl t ↦ rw (f, t, wrap-add a (negsuc 0) sa (omega arith, omega arith)) (step_down a b sa sb t)
    | inr f' ↦ rw (f, f', wrap-add a (pos 0) sa (omega arith, omega arith)) (stay a b sa f f')
  ]
]

-- The larger of the two gaps.
abbrev pub far : Vec2 → Vec2 → ℕ
far p q = if leb (gap p.x q.x) (gap p.y q.y) then gap p.y q.y else gap p.x q.x

abbrev pub IsNear : Vec2 → Type 0
IsNear p = IsSmall p.x × IsSmall p.y

next_position-far :
    (p target : Vec2)
    → IsNear p
    → IsNear target
    → (far (next_position p target) target ≡ far p target - 1) × IsNear (next_position p target)
unfolding next_position
next_position-far p target sp st =
    let across = nearer p.x target.x sp.0 st.0 in
    let along = nearer p.y target.y sp.1 st.1 in
    (rw (across.0, along.0) (ground arith), (across.1, along.1))

far_self : (p target : Vec2) → p.x ≡ target.x → p.y ≡ target.y → far p target ≡ 0
far_self p target e e' = rw (e, e') (ground arith)

not_there : (p target : Vec2) (n : ℕ) → far p target ≡ suc n → at_goal p target ≡ false
not_there p target n apart = elim (beq_cases int_eq p.x target.x) [
  | inr f ↦ rw f refl
  | inl (t, e) ↦ elim (beq_cases int_eq p.y target.y) [
    | inr f ↦ rw (t, f) refl
    | inl (t', e') ↦ absurd (omega (arith, far_self p target e e'))
  ]
]

there : (p target : Vec2) → far p target ≡ 0 → p ≡ target
there p target none_left =
    let across : p.x ≡ target.x = eq_of_parts p.x target.x (ground arith) in
    let along : p.y ≡ target.y = eq_of_parts p.y target.y (ground arith) in
    λ i. record { x = across i; y = along i }

module _ {F : Type 0} (ops : FloatOps F) where
  abbrev pub elapsed : ℕ → F → F
  elapsed zero time = time
  elapsed (suc k) time = elapsed k (later ops time)

module _ {F : Type 0} (ops : FloatOps F) (can_move : Entity F → Vec2 → Bool) where
  -- One update after another, each with its own draws.
  unfoldable pub updates : (ℕ → Draws F) → ℕ → Entity F → Entity F
  unfolding update
  updates draws zero e = e
  updates draws (suc n) e = updates draws n (update ops (draws n) can_move e)

  one_step :
      (draws : Draws F) (e : Entity F) (target : Vec2) (speed time most : F)
      → e.current_state ≡ some (wander target speed time most)
      → at_goal e.position target ≡ false
      → ((x : Entity F) (p : Vec2) → can_move x p ≡ true)
      → ops.at_most most (later ops time) ≡ false
      → update ops draws can_move e ≡ record e {
        position = next_position e.position target;
        current_state = some (wander target speed (later ops time) most);
      }
  unfolding update update_in changed update_state stepped move_to
  one_step draws e target speed time most going away free early =
      ap (λ o. update_in ops draws can_move o e) going ∙ rw (early, away, free) refl

  -- A wanderer is at its target after as many updates as the target is blocks away, along the axis
  -- on which it is further: if the world lets it in everywhere, its time is not up until then, and
  -- no coordinate is 2^62 or more away from 0.
  pub wander_arrives :
      (draws : ℕ → Draws F) (n : ℕ) (e : Entity F) (target : Vec2) (speed time most : F)
      → e.current_state ≡ some (wander target speed time most)
      → IsNear e.position
      → IsNear target
      → far e.position target ≡ n
      → ((x : Entity F) (p : Vec2) → can_move x p ≡ true)
      → ((k : ℕ) → k < n → ops.at_most most (later ops (elapsed ops k time)) ≡ false)
      → (updates draws n e).position ≡ target
  unfolding updates
  wander_arrives draws zero e target speed time most going se st apart free early =
      there e.position target apart
  wander_arrives draws (suc n) e target speed time most going se st apart free early =
      let closer = next_position-far e.position target se st in
      let e' : Entity F = record e {
        position = next_position e.position target;
        current_state = some (wander target speed (later ops time) most);
      } in
      ap (λ (x : Entity F). (updates draws n x).position)
        (one_step (draws n) e target speed time most going (not_there e.position target n apart)
          free (early 0 (omega arith)))
      ∙ wander_arrives draws n e' target speed (later ops time) most refl closer.1 st
          (omega (arith, closer.0)) free λ k lt. early (suc k) (omega arith)
