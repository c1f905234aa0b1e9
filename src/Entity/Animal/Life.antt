-- ===== src/Entity/Animal/Life.antt =====
-- The methods of an animal's behaviour: Update, OnSpawn, OnDamage, OnCollision and GetMoveSpeed of
-- internal/world/entity/animal.go. OnDespawn does nothing.
pub mod Keeps
use mmo_game.Prelude.{
  ℤ, pos, ◌+ℤ◌, ◌-ℤ◌, ◌*ℤ◌, wrap, ltb_ℤ, leb_ℤ, String, Bool, true, false, Option, none, some,
  if◌then◌else◌, ◌==◌, nat_eq, string_eq,
}
use mmo_game.Prelude.Outcome.{Outcome, done, asserted, ◌>>=◌}
use mmo_game.Vec.Float.{FloatOps, to_vec2, add, sub, mul, normalized}
use mmo_game.Entity.{
  Entity, EntityApi, Draws, int, float, string, point, fetch, put, as_int, as_string, as_float,
}
use mmo_game.Entity.Animal.{
  AnimalBehavior, cow, idle_timer, init_animal_data, update_base_state, process_state,
}
use mmo_game.Entity.Animal.Cow.{update_cow_state}

module _ {F W : Type 0} (ops : FloatOps F) (api : EntityApi F W) (ab : AnimalBehavior F)
    (draws : Draws F) where
  -- The hunger grows with the time, up to its maximum.
  abbrev pub hungrier : ℤ → F → ℤ
  hungrier hunger dt =
      let more =
        wrap (hunger +ℤ ops.to_int (ops.times (ops.times ab.hunger_rate dt) (ops.lit 100 0))) in
      let most = wrap (ab.max_hunger *ℤ pos 100) in if ltb_ℤ most more then most else more

  unfoldable pub act : W → Entity F → String → F → Outcome (W × Entity F)
  unfolding put
  act w e state timer =
      if ab.kind == cow
      then update_cow_state ops api ab draws w e state timer
      else (if ops.at_most timer (ops.lit 0 0)
          then done (w, (update_base_state ops ab draws e state timer).0)
          else done (w, process_state ops ab draws (put "actionTimer" (float timer) e) state))

  unfoldable pub update_filled : W → Entity F → F → Outcome (W × Entity F)
  unfolding fetch put act
  update_filled w e dt = asserted (as_int (fetch "hunger" e)) >>= λ hunger.
      (let e' = put "hunger" (int (hungrier hunger dt)) e in
        asserted (as_string (fetch "state" e')) >>= λ state.
        (asserted (as_float (fetch "actionTimer" e')) >>= λ timer.
        act w e' state (ops.minus timer dt)))

  unfoldable pub update : W → Entity F → F → Outcome (W × Entity F)
  unfolding init_animal_data update_filled
  update w e dt = update_filled w (init_animal_data ops ab draws e) dt

module _ {F : Type 0} (ops : FloatOps F) (ab : AnimalBehavior F) (draws : Draws F) where
  unfoldable pub on_spawn : Entity F → Entity F
  unfolding init_animal_data
  on_spawn e = init_animal_data ops ab draws e

  -- An animal flees from the entity that hurts it.
  unfoldable pub flee_from : Option (Entity F) → Entity F → Entity F
  unfolding to_vec2 add sub mul normalized
  flee_from none e = e
  flee_from (some source) e =
      let away = normalized ops (sub ops e.precise_pos source.precise_pos) in
      put "targetPosition"
        (point (to_vec2 ops (add ops e.precise_pos (mul ops away ab.wander_radius)))) e

  unfoldable pub hurt : Option ℤ → Entity F → ℤ → Option (Entity F) → Entity F × Bool
  unfolding flee_from put
  hurt none e damage source = (e, false)
  hurt (some health) e damage source =
      let left = wrap (health -ℤ damage) in
      if leb_ℤ left (pos 0) then (put "health" (int (pos 0)) e, true) else (
        flee_from source (
            put "actionTimer" (float (ops.lit 5 0))
              (put "state" (string "fleeing") (put "health" (int left) e))),
        false,
      )

  -- The result says whether the animal died.
  unfoldable pub on_damage : Entity F → ℤ → Option (Entity F) → Entity F × Bool
  unfolding hurt fetch
  on_damage e damage source = hurt (as_int (fetch "health" e)) e damage source

  stopped : Option String → Entity F → Entity F
  unfolding put
  stopped none e = e
  stopped (some state) e =
      if state == "moving"
      then put "actionTimer" (float (idle_timer ops ab draws)) (put "state" (string "idle") e)
      else e

  unfoldable pub on_collision : Entity F → Entity F
  unfolding stopped fetch
  on_collision e = stopped (as_string (fetch "state" e)) e
