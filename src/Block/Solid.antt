-- ===== src/Block/Solid.antt =====
-- The blocks that no tick changes: air.go, stone.go, dirt.go, tree.go, cactus.go, and loader.go's
-- simpleBlockBehavior.
use mmo_game.Prelude.{
  ℕ, ℤ, pos, ◌+ℤ◌, ◌-ℤ◌, wrap, ltb_ℤ, leb_ℤ, String, true, false, Option, none, some, [], ◌∷◌,
  lookup, insert, if◌then◌else◌, ◌==◌, nat_eq, string_eq,
}
use mmo_game.Vec.{Vec2}
use mmo_game.Block.{
  int, bool, Metadata, as_float, as_string, InteractionResult, Interaction, air_block_id,
  stone_block_id, grass_block_id, dirt_block_id, tree_block_id, cactus_block_id, BlockApi, Registry,
  get, Behavior,
}

abbrev refused : String → InteractionResult
refused message = record { success = false; message = message; effects = [] }

-- A number from the payload, with a default: `x := d; if f, ok := m[k].(float64); ok { x = int(f) }`.
abbrev pub number_or : {F : Type 0} → (F → ℤ) → ℤ → Option F → ℤ
number_or to_int d none = d
number_or to_int d (some f) = to_int f

module _ {F : Type 0} (to_int : F → ℤ) where
  -- `mine` takes the strength off the hardness, and breaks the block at 0.
  mine : Metadata F → Metadata F → Interaction F
  mine current_payload action_payload =
      let hardness = number_or to_int (pos 10) (as_float (lookup "hardness" current_payload)) in
      let strength = number_or to_int (pos 1) (as_float (lookup "strength" action_payload)) in
      let left = wrap (hardness -ℤ strength) in
      if leb_ℤ left (pos 0)
      then (
        air_block_id,
        [],
        record { success = true; message = "Камень разрушен"; effects = "particle_break" ∷ [] },
      )
      else (
        stone_block_id,
        insert "hardness" (int left) current_payload,
        record { success = true; message = "Камень поврежден"; effects = "particle_hit" ∷ [] },
      )

  unfoldable pub stone_interaction : String → Metadata F → Metadata F → Interaction F
  unfolding mine
  stone_interaction action current_payload action_payload =
      if action == "mine"
      then mine current_payload action_payload
      else (stone_block_id, current_payload, refused "Действие не поддерживается для камня")

  moisten : ℤ → ℤ
  moisten moisture =
      if ltb_ℤ moisture (pos 10)
      then (let more = wrap (moisture +ℤ pos 2) in if ltb_ℤ (pos 10) more then pos 10 else more)
      else moisture

  use_on_dirt : Option String → Metadata F → Interaction F
  unfolding moisten
  use_on_dirt none current_payload =
      (dirt_block_id, current_payload, refused "Действие не поддерживается для земли")
  use_on_dirt (some tool) current_payload =
      if tool == "seed"
      then (
        grass_block_id,
        ("growth", int (pos 0)) ∷ [],
        record { success = true; message = "Земля засеяна травой"; effects = [] },
      )
      else (if tool == "water"
          then (
            dirt_block_id,
            insert "moisture"
                (int (
                  moisten
                    (number_or to_int (pos 0) (as_float (lookup "moisture" current_payload)))))
                current_payload,
            record { success = true; message = "Земля увлажнена"; effects = [] },
          )
          else (dirt_block_id, current_payload, refused "Действие не поддерживается для земли"))

  unfoldable pub dirt_interaction : String → Metadata F → Metadata F → Interaction F
  unfolding use_on_dirt
  dirt_interaction action current_payload action_payload =
      if action == "use"
      then use_on_dirt (as_string (lookup "tool" action_payload)) current_payload
      else (dirt_block_id, current_payload, refused "Действие не поддерживается для земли")

-- Placing a block into air. `to_uint16` is the conversion of a JSON number to a block id, and
-- `create_metadata` the method of the new block's behaviour.
module _ {F : Type 0} (to_uint16 : F → ℕ) (create_metadata : Behavior → Metadata F) where
  abbrev nothing_done : Metadata F → Interaction F
  nothing_done current_payload =
      (air_block_id, current_payload, refused "Нельзя взаимодействовать с воздухом")

  place_if_known : ℕ → Option Behavior → Metadata F → Interaction F
  place_if_known new_block_id none current_payload = nothing_done current_payload
  place_if_known new_block_id (some behavior) current_payload = (
    new_block_id,
    create_metadata behavior,
    record { success = true; message = "Блок установлен"; effects = [] },
  )

  place_number : Registry → Option F → Metadata F → Interaction F
  unfolding place_if_known
  place_number registry none current_payload = nothing_done current_payload
  place_number registry (some block_id) current_payload =
      place_if_known (to_uint16 block_id) (get (to_uint16 block_id) registry) current_payload

  unfoldable pub air_interaction : Registry → String → Metadata F → Metadata F → Interaction F
  unfolding place_number
  air_interaction registry action current_payload action_payload =
      if action == "place"
      then place_number registry (as_float (lookup "block_id" action_payload)) current_payload
      else nothing_done current_payload

module _ {F W : Type 0} (api : BlockApi F W) where
  unfoldable pub stone_on_place : W → Vec2 → W
  stone_on_place w p =
      api.set_block_metadata (api.set_block_metadata w p "hardness" (int (pos 10))) p "has_ore"
        (bool false)

  unfoldable pub dirt_on_place : W → Vec2 → W
  dirt_on_place w p = api.set_block_metadata w p "moisture" (int (pos 0))

  -- A tree or a cactus also takes the layer above: its top goes there if that is free, and comes
  -- away with the trunk.
  two_layer_on_place : ℕ → W → Vec2 → W
  two_layer_on_place id w p =
      if api.get_block_id_layer w 2 p == air_block_id then api.set_block_layer w 2 p id else w

  two_layer_on_break : ℕ → W → Vec2 → W
  two_layer_on_break id w p =
      if api.get_block_id_layer w 2 p == id then api.set_block_layer w 2 p air_block_id else w

  unfoldable pub tree_on_place : W → Vec2 → W
  unfolding two_layer_on_place
  tree_on_place w p = two_layer_on_place tree_block_id w p

  unfoldable pub tree_on_break : W → Vec2 → W
  unfolding two_layer_on_break
  tree_on_break w p = two_layer_on_break tree_block_id w p

  unfoldable pub cactus_on_place : W → Vec2 → W
  unfolding two_layer_on_place
  cactus_on_place w p = two_layer_on_place cactus_block_id w p

  unfoldable pub cactus_on_break : W → Vec2 → W
  unfolding two_layer_on_break
  cactus_on_break w p = two_layer_on_break cactus_block_id w p
