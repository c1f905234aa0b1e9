-- ===== src/Entity/Attack.antt =====
-- PlayerBehavior.Attack and its helpers, of internal/world/entity/player.go. The targets are shared
-- objects, which are returned as the blow leaves them. `behavior_of` is GetBehavior of EntityAPI.
use mmo_game.Prelude.{
  ℕ, ℤ, pos, Bool, true, false, not, ◌&&◌, Option, none, some, List, [], ◌∷◌, ◌≡◌, refl, ◌∙◌, ap,
  sym, inl, inr, Bool-cases, string_eq, if◌then◌else◌, ◌==◌, nat_eq, int_eq,
}
use mmo_game.Prelude.Outcome.{Outcome, done, done-injective, >>=-eq-done, ◌>>=◌}
use mmo_game.Vec.Float.{FloatOps, Vec2Float, to_vec2, add, sub, mul, length, normalized}
use mmo_game.Entity.{Entity, EntityApi, Draws, float, fetch, put, as_float}
use mmo_game.Entity.Payload.{fetch-put}
use mmo_game.Entity.Player.{PlayerBehavior}
use mmo_game.Entity.Behavior.{EntityBehavior, on_damage}

module _ {F : Type 0} (ops : FloatOps F) where
  abbrev minus_one : F
  minus_one = ops.negate (ops.lit 1 0)

  abbrev diagonal : F
  diagonal = ops.lit 7071 4

  direction_vector : ℤ → Vec2Float F
  direction_vector d =
      if d == pos 0
      then record { x = ops.lit 0 0; y = ops.lit 1 0 }
      else (if d == pos 1
          then record { x = ops.lit 1 0; y = ops.lit 0 0 }
          else (if d == pos 2
              then record { x = ops.lit 0 0; y = minus_one }
              else (if d == pos 3
                  then record { x = minus_one; y = ops.lit 0 0 }
                  else (if d == pos 4
                      then record { x = diagonal; y = diagonal }
                      else (if d == pos 5
                          then record { x = diagonal; y = ops.negate diagonal }
                          else (if d == pos 6
                              then record { x = ops.negate diagonal; y = ops.negate diagonal }
                              else (if d == pos 7
                                  then record { x = ops.negate diagonal; y = diagonal }
                                  else record { x = ops.lit 0 0; y = ops.lit 0 0 })))))))

  cos_degrees : F → F
  cos_degrees a =
      if ops.at_most a (ops.lit 45 0)
      then diagonal
      else (if ops.at_most a (ops.lit 90 0) then ops.lit 0 0 else minus_one)

  is_in_attack_cone : Vec2Float F → Vec2Float F → Vec2Float F → F → F → Bool
  unfolding cos_degrees sub length normalized
  is_in_attack_cone from target direction reach angle =
      let toward = sub ops target from in
      let d = normalized ops direction in
      let t = normalized ops toward in
      let dot = ops.plus (ops.times d.x t.x) (ops.times d.y t.y) in
      if ops.less reach (length ops toward)
      then false
      else ops.at_most (cos_degrees (ops.over angle (ops.lit 2 0))) dot

module _ {F : Type 0} (ops : FloatOps F) (behavior_of : ℕ → Option (EntityBehavior F))
    (pb : PlayerBehavior F) (draws : Draws F) where
  -- The target after the blow, and whether there was one.
  struck : Option (EntityBehavior F) → Entity F → Entity F → Entity F × Bool
  unfolding on_damage
  struck none e target = (target, false)
  struck (some b) e target = ((on_damage ops b draws target pb.attack_damage (some e)).0, true)

  aimed : Entity F → Entity F → Bool
  unfolding is_in_attack_cone direction_vector
  aimed e target =
      not (target.id == e.id)
      && is_in_attack_cone ops e.precise_pos target.precise_pos (direction_vector ops e.direction)
          pb.attack_range (ops.lit 90 0)

  -- The loop over the entities in range.
  strike_all : Entity F → List (Entity F) → List (Entity F) × Bool
  unfolding struck aimed
  strike_all e [] = ([], false)
  strike_all e (target ∷ targets) =
      let rest = strike_all e targets in
      let blow = struck (behavior_of target.entity_type) e target in
      if aimed e target
      then (blow.0 ∷ rest.0, if blow.1 then true else rest.1)
      else (target ∷ rest.0, rest.1)

  abbrev on_cooldown : Option F → Bool
  on_cooldown none = false
  on_cooldown (some cooldown) = ops.less (ops.lit 0 0) cooldown

module _ {F W : Type 0} (ops : FloatOps F) (api : EntityApi F W)
    (behavior_of : ℕ → Option (EntityBehavior F)) (pb : PlayerBehavior F) (draws : Draws F) where
  look : W → Entity F → Outcome (W × List (Entity F))
  unfolding direction_vector add mul to_vec2
  look w e =
      let center =
        add ops e.precise_pos
          (mul ops (direction_vector ops e.direction) (ops.over pb.attack_range (ops.lit 2 0))) in
      api.get_entities_in_range w (to_vec2 ops center) pb.attack_range

  -- The entities in range are struck, and the cooldown begins.
  finish : Entity F → W × List (Entity F) → Outcome (W × Entity F × List (Entity F) × Bool)
  unfolding strike_all put
  finish e (w, targets) =
      let (hurt, hit) = strike_all ops behavior_of pb draws e targets in
      done (w, put "attackCooldown" (float pb.attack_cooldown) e, hurt, hit)

  blow : W → Entity F → Outcome (W × Entity F × List (Entity F) × Bool)
  unfolding look finish
  blow w e = look w e >>= finish e

  -- The entity, the entities that were in range, and whether one was hit.
  unfoldable pub attack : W → Entity F → Outcome (W × Entity F × List (Entity F) × Bool)
  unfolding blow fetch
  attack w e =
      if on_cooldown ops behavior_of pb draws (as_float (fetch "attackCooldown" e))
      then done (w, e, [], false)
      else blow w e

  cooling :
      (w : W) (e : Entity F)
      → on_cooldown ops behavior_of pb draws (as_float (fetch "attackCooldown" e)) ≡ true
      → attack w e ≡ done (w, e, [], false)
  unfolding attack
  cooling w e h = rw h refl

  landed :
      (w w' : W) (e e' : Entity F) (hurt : List (Entity F)) (hit : Bool)
      → blow w e ≡ done (w', e', hurt, hit)
      → put "attackCooldown" (float pb.attack_cooldown) e ≡ e'
  unfolding blow finish
  landed w w' e e' hurt hit first =
      let (r, reads, same) = >>=-eq-done (look w e) (finish e) first in
      ap (λ (r : W × Entity F × List (Entity F) × Bool). r.1) (done-injective same)

  ready :
      (w : W) (e : Entity F)
      → on_cooldown ops behavior_of pb draws (as_float (fetch "attackCooldown" e)) ≡ false
      → attack w e ≡ blow w e
  unfolding attack
  ready w e h = rw h refl

  -- An attack that has returned cannot be followed by another before the next Update: a second call
  -- hits nothing and changes nothing, whether or not the first one did.
  pub attack_twice :
      (w w' again : W) (e e' : Entity F) (hurt : List (Entity F)) (hit : Bool)
      → ops.less (ops.lit 0 0) pb.attack_cooldown ≡ true
      → attack w e ≡ done (w', e', hurt, hit)
      → attack again e' ≡ done (again, e', [], false)
  attack_twice w w' again e e' hurt hit slow first =
      elim (Bool-cases
        (on_cooldown ops behavior_of pb draws (as_float (fetch "attackCooldown" e)))) [
          | inl t ↦
              let same : e ≡ e' =
                ap (λ (r : W × Entity F × List (Entity F) × Bool). r.1)
                  (done-injective (sym (cooling w e t) ∙ first)) in
              cooling again e' (rw⁻¹ same t)
          | inr f ↦ cooling again e' (
              rw⁻¹ (landed w w' e e' hurt hit (sym (ready w e f) ∙ first)) (
                ap (λ o. on_cooldown ops behavior_of pb draws (as_float o))
                  (fetch-put "attackCooldown" "attackCooldown" (float pb.attack_cooldown) e)
                ∙ slow))
        ]
