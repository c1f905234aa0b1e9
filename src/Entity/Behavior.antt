-- ===== src/Entity/Behavior.antt =====
-- The methods of `EntityBehavior` (internal/world/entity/entity.go), by the behaviour that the
-- interface value holds. `format_uint` is strconv.FormatUint in base 10.
use mmo_game.Prelude.{ℕ, ℤ, String, Bool, Option}
use mmo_game.Prelude.Outcome.{Outcome, done}
use mmo_game.Vec.Float.{FloatOps}
use mmo_game.Entity.{Entity, EntityApi, Draws}
use mmo_game.Entity.Player.{
  PlayerBehavior, update as update_player, on_spawn as spawn_player, on_damage as damage_player,
}
use mmo_game.Entity.Animal.{AnimalBehavior}
use mmo_game.Entity.Animal.Life.{
  update as update_animal, on_spawn as spawn_animal, on_damage as damage_animal,
  on_collision as collide_animal,
}
use mmo_game.Entity.Npc.{NpcBehavior}
use mmo_game.Entity.Npc.Life.{
  update as update_npc, on_spawn as spawn_npc, on_damage as damage_npc, on_collision as collide_npc,
}

pub data EntityBehavior (F : Type 0) : Type 0 where
  player : PlayerBehavior F → EntityBehavior F
  npc : NpcBehavior F → EntityBehavior F
  animal : AnimalBehavior F → EntityBehavior F

unfoldable pub get_move_speed : {F : Type 0} → EntityBehavior F → F
get_move_speed (player pb) = pb.base_speed
get_move_speed (npc nb) = nb.base_speed
get_move_speed (animal ab) = ab.base_speed

module _ {F W : Type 0} (ops : FloatOps F) (api : EntityApi F W) where
  unfoldable pub update : EntityBehavior F → Draws F → W → Entity F → F → Outcome (W × Entity F)
  update (player pb) draws w e dt = done (w, update_player ops e dt)
  update (npc nb) draws w e dt = update_npc ops api nb draws w e dt
  update (animal ab) draws w e dt = update_animal ops api ab draws w e dt

module _ {F : Type 0} (ops : FloatOps F) where
  unfoldable pub on_spawn : (ℕ → String) → EntityBehavior F → Draws F → Entity F → Entity F
  on_spawn format_uint (player pb) draws e = spawn_player ops format_uint pb e
  on_spawn format_uint (npc nb) draws e = spawn_npc ops nb draws e
  on_spawn format_uint (animal ab) draws e = spawn_animal ops ab draws e

  -- The entity after the damage, and whether it died.
  unfoldable pub on_damage :
      EntityBehavior F → Draws F → Entity F → ℤ → Option (Entity F) → Entity F × Bool
  on_damage (player pb) draws e damage source = damage_player e damage
  on_damage (npc nb) draws e damage source = damage_npc ops nb draws e damage source
  on_damage (animal ab) draws e damage source = damage_animal ops ab draws e damage source

  unfoldable pub on_collision : EntityBehavior F → Draws F → Entity F → Entity F
  on_collision (player pb) draws e = e
  on_collision (npc nb) draws e = collide_npc ops nb draws e
  on_collision (animal ab) draws e = collide_animal ops ab draws e
