-- ===== src/World/Ids.antt =====
-- The identifiers that the world gives to entities.
use mmo_game.Prelude.{ℕ, ◌+◌, ◌%◌, ◌^◌, Bool, List, [], ◌∷◌, ◌≡◌}
use mmo_game.Vec.{Vec2, vec2_eq}
use mmo_game.Events.{Event, Entities}
use mmo_game.World.{World}
use mmo_game.World.Life.{Call, spawn, call}

module _ {F : Type 0} (load : Vec2 → Entities F → Entities F) (marshals : Event F → Bool) where
  -- The number of entities that a call creates.
  abbrev pub spawns : Call F → ℕ
  spawns (spawn entity_type p contents) = 1
  spawns _ = 0

  abbrev pub all_spawns : List (Call F) → ℕ
  all_spawns [] = 0
  all_spawns (c ∷ cs) = spawns c + all_spawns cs

  Counts : World F → Call F → Type 0
  Counts w c =
      (call load marshals w c).next_entity_id % 2 ^ 64 ≡ (w.next_entity_id + spawns c) % 2 ^ 64
