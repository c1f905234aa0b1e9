-- ===== src/World/Life.antt =====
-- The world's life as a sequence of calls.
use mmo_game.Prelude.{ℕ, Bool, List, [], ◌∷◌, nat_eq}
use mmo_game.Vec.{Vec2, vec2_eq}
use mmo_game.Events.{EventData, Block, BlockEvent, EntityEvent, Entities, Event}
use mmo_game.World.{World}
use mmo_game.World.Route.{
  batch_update, process_tick, route_block_event, route_entity_event, process_entity_movement,
  handle_entity_event, process_global_event, spawn_entity, despawn_entity,
}
use mmo_game.World.Saves.{save_world}

-- A call of one of the world's methods that send events.
pub data Call (F : Type 0) : Type 0 where
  route_block : BlockEvent F → Call F
  route_entity : EntityEvent F → Call F
  move : ℕ → Vec2 → Vec2 → Call F
  spawn : ℕ → Vec2 → EventData F → Call F
  despawn : ℕ → Vec2 → Call F
  hand_in : EntityEvent F → Call F
  batch : List (Vec2 × Block F) → Call F
  next_event next_tick : Call F
  save : Bool → Bool → ℕ → ℕ → Call F

module _ {F : Type 0} (load : Vec2 → Entities F → Entities F) (marshals : Event F → Bool) where
  unfoldable pub call : World F → Call F → World F
  call w (route_block e) = (route_block_event load marshals w e).0
  call w (route_entity e) = (route_entity_event load marshals w e).0
  call w (move id old_pos new_pos) = (process_entity_movement load marshals w id old_pos new_pos).0
  call w (spawn entity_type p contents) = (spawn_entity load marshals w entity_type p contents).0
  call w (despawn id p) = (despawn_entity load marshals w id p).0
  call w (hand_in e) = handle_entity_event w e
  call w (batch updates) = batch_update load w updates
  call w next_event = (process_global_event load marshals w w.global_events).0
  call w next_tick = process_tick w
  call w (save has_save force now later) = (save_world has_save w force now later).0

  unfoldable pub calls : World F → List (Call F) → World F
  calls w [] = w
  calls w (c ∷ cs) = calls (call w c) cs
