-- ===== src/Block/Dispatch.antt =====
-- The methods of `BlockBehavior`, by the behaviour that the interface value holds.
use mmo_game.Prelude.{
  ℕ, ◌%◌, ◌^◌, ℤ, pos, if◌then◌else◌, ◌==◌, nat_eq, string_eq, ◌||◌, Option, none, some, String,
  Bool, true, false, List, [], ◌∷◌,
}
use mmo_game.Vec.{Vec2}
use mmo_game.Block.{
  int, bool, Metadata, Interaction, Behavior, air, stone, grass, water, dirt, deep_water, tree,
  cactus, simple, Registry, register, BlockApi, get, air_block_id, stone_block_id, grass_block_id,
  water_block_id, dirt_block_id, deep_water_block_id, tree_block_id, cactus_block_id,
}
use mmo_game.Block.Solid.{
  stone_interaction, dirt_interaction, air_interaction, stone_on_place, dirt_on_place,
  tree_on_place, tree_on_break, cactus_on_place, cactus_on_break,
}
use mmo_game.Block.Fluid.{
  water_tick_update, water_on_place, water_on_break, deep_water_tick_update, deep_water_on_place,
  deep_water_on_break, water_interaction,
}
use mmo_game.Block.Grass.{Draw, grass_tick_update, grass_on_place, grass_interaction}

-- The `init` functions, in the order of the files.
register_all : List (ℕ × Behavior) → Registry → Registry
unfolding register
register_all [] registry = registry
register_all ((n, behavior) ∷ rest) registry = register_all rest (register n behavior registry)

unfoldable pub initial_registry : Registry
unfolding register_all
initial_registry =
    register_all
      ((air_block_id, air)
        ∷ (cactus_block_id, cactus)
        ∷ (deep_water_block_id, deep_water)
        ∷ (dirt_block_id, dirt)
        ∷ (grass_block_id, grass)
        ∷ (air_block_id, air)
        ∷ (stone_block_id, stone)
        ∷ (grass_block_id, grass)
        ∷ (water_block_id, water)
        ∷ (dirt_block_id, dirt)
        ∷ (stone_block_id, stone)
        ∷ (tree_block_id, tree)
        ∷ (water_block_id, water)
        ∷ [])
      []

unfoldable pub id : Behavior → ℕ
id air = air_block_id
id stone = stone_block_id
id grass = grass_block_id
id water = water_block_id
id dirt = dirt_block_id
id deep_water = deep_water_block_id
id tree = tree_block_id
id cactus = cactus_block_id
id (simple n name) = n

unfoldable pub needs_tick : Behavior → Bool
needs_tick grass = true
needs_tick water = true
needs_tick _ = false

-- `IsPassable` is a method of three of the types; of the other blocks only air can be passed.
has_passage : Option Behavior → Bool
has_passage (some air) = true
has_passage (some water) = true
has_passage (some deep_water) = true
has_passage _ = false

unfoldable pub is_passable_block : Registry → ℕ → Bool
unfolding has_passage
is_passable_block registry block_id =
    if has_passage (get block_id registry) then true else block_id == air_block_id

unfoldable pub create_metadata : {F : Type 0} → Behavior → Metadata F
create_metadata air = []
create_metadata stone = ("hardness", int (pos 10)) ∷ ("has_ore", bool false) ∷ []
create_metadata grass = ("growth", int (pos 0)) ∷ []
create_metadata water = ("level", int (pos 7)) ∷ []
create_metadata dirt = ("moisture", int (pos 0)) ∷ []
create_metadata deep_water = ("deep", bool true) ∷ ("level", int (pos 7)) ∷ []
create_metadata tree = ("height", int (pos 2)) ∷ []
create_metadata cactus = ("height", int (pos 2)) ∷ []
create_metadata (simple n name) = []

module _ {F W : Type 0} (api : BlockApi F W) where
  unfoldable pub tick_update : Behavior → Draw → W → Vec2 → W
  tick_update grass draw w p = grass_tick_update api draw w p
  tick_update water draw w p = water_tick_update api w p
  tick_update deep_water draw w p = deep_water_tick_update api w p
  tick_update _ draw w p = w

  unfoldable pub on_place : Behavior → W → Vec2 → W
  on_place stone w p = stone_on_place api w p
  on_place grass w p = grass_on_place api w p
  on_place water w p = water_on_place api w p
  on_place dirt w p = dirt_on_place api w p
  on_place deep_water w p = deep_water_on_place api w p
  on_place tree w p = tree_on_place api w p
  on_place cactus w p = cactus_on_place api w p
  on_place _ w p = w

  -- Stone's OnBreak reads `has_ore` and does nothing with it.
  unfoldable pub on_break : Behavior → W → Vec2 → W
  on_break water w p = water_on_break api w p
  on_break deep_water w p = deep_water_on_break api w p
  on_break tree w p = tree_on_break api w p
  on_break cactus w p = cactus_on_break api w p
  on_break _ w p = w

abbrev unchanged : {F : Type 0} → ℕ → Metadata F → String → Interaction F
unchanged n current_payload message =
    (n, current_payload, record { success = false; message = message; effects = [] })

module _ {F : Type 0} (to_int : F → ℤ) (to_uint16 : F → ℕ) where
  unfoldable pub handle_interaction :
      Registry → Behavior → String → Metadata F → Metadata F → Interaction F
  handle_interaction registry air action current act =
      air_interaction to_uint16 create_metadata registry action current act
  handle_interaction registry stone action current act = stone_interaction to_int action current act
  handle_interaction registry grass action current act = grass_interaction to_int action current act
  handle_interaction registry water action current act = water_interaction to_int action current act
  handle_interaction registry dirt action current act = dirt_interaction to_int action current act
  handle_interaction registry deep_water action current act =
      unchanged deep_water_block_id current "Глубинная вода не поддерживает взаимодействие"
  handle_interaction registry tree action current act = unchanged tree_block_id current ""
  handle_interaction registry cactus action current act = unchanged cactus_block_id current ""
  handle_interaction registry (simple n name) action current act =
      unchanged n current "no interaction"

  custom_action : Registry → Option Behavior → String → ℕ × Metadata F → Metadata F → Interaction F
  unfolding handle_interaction
  custom_action registry none action (old_id, old_payload) act =
      unchanged old_id old_payload "No behavior"
  custom_action registry (some behavior) action (old_id, old_payload) act =
      handle_interaction registry behavior action old_payload act

  created : Option Behavior → Metadata F
  unfolding create_metadata
  created none = []
  created (some behavior) = create_metadata behavior

  -- The switch of `handleBlockUpdate` (game_handler_pb.go): the block that an action leaves.
  -- `block_id` is the request's uint32, cut to a BlockID.
  unfoldable pub block_action : Registry → String → ℕ × Metadata F → ℕ → Metadata F → Interaction F
  unfolding custom_action created
  block_action registry action (old_id, old_payload) block_id act =
      if action == "place"
      then (
        block_id % 2 ^ 16,
        created (get (block_id % 2 ^ 16) registry),
        record { success = true; message = ""; effects = [] },
      )
      else (if action == "mine" || action == "break"
          then (air_block_id, [], record { success = true; message = ""; effects = [] })
          else custom_action registry (get old_id registry) action (old_id, old_payload) act)
