-- ===== src/Block/Fluid.antt =====
-- Flowing and deep water: water.go and deep_water.go.
pub mod Still
use mmo_game.Prelude.{
  ℕ, ℤ, pos, ◌+ℤ◌, ◌-ℤ◌, wrap, quot, ltb_ℤ, leb_ℤ, String, Bool, true, false, ◌&&◌, not, Option,
  none, some, List, [], ◌∷◌, lookup, insert, if◌then◌else◌, ◌==◌, nat_eq, string_eq,
}
use mmo_game.Vec.{Vec2}
use mmo_game.Block.{
  Value, int, bool, Metadata, as_int, as_float, as_string, InteractionResult, Interaction,
  air_block_id, water_block_id, deep_water_block_id, BlockApi, neighbors,
}
use mmo_game.Block.Solid.{number_or}

abbrev pub is_water : ℕ → Bool
is_water id = if id == water_block_id then true else id == deep_water_block_id

module _ {F W : Type 0} (api : BlockApi F W) where
  -- Levelling with a neighbour whose level is known. `level` is the one read before the loop.
  level_with : ℤ → Vec2 → Vec2 → Option ℤ → W → W
  level_with level p dir none w = w
  level_with level p dir (some target_level) w =
      let new_level = quot (wrap (level +ℤ target_level)) 2 in
      if ltb_ℤ (wrap (target_level +ℤ pos 1)) level
      then api.set_block_metadata (api.set_block_metadata w p "level" (int new_level)) dir "level"
          (int new_level)
      else w

  -- One round of the loop over the directions.
  flow_to : ℤ → Vec2 → Vec2 → W → W
  unfolding level_with
  flow_to level p dir w =
      let target_id = api.get_block_id w dir in
      if target_id == air_block_id
      then api.set_block_metadata (api.set_block w dir water_block_id) dir "level"
          (int (wrap (level -ℤ pos 1)))
      else (if target_id == water_block_id
          then level_with level p dir (as_int (api.get_block_metadata w dir "level")) w
          else w)

  flow : ℤ → Vec2 → List Vec2 → W → W
  unfolding flow_to
  flow level p [] w = w
  flow level p (dir ∷ directions) w = flow level p directions (flow_to level p dir w)

  water_tick_level : Option ℤ → W → Vec2 → W
  unfolding flow
  water_tick_level none w p = api.set_block_metadata w p "level" (int (pos 7))
  water_tick_level (some level) w p =
      if leb_ℤ level (pos 0) then w else flow level p (neighbors p) w

  unfoldable pub water_tick_update : W → Vec2 → W
  unfolding water_tick_level
  water_tick_update w p = water_tick_level (as_int (api.get_block_metadata w p "level")) w p

  unfoldable pub water_on_place : W → Vec2 → W
  water_on_place w p = api.set_block_metadata w p "level" (int (pos 7))

  unfoldable pub water_on_break : W → Vec2 → W
  water_on_break w p = api.trigger_neighbor_updates w p

  -- The loop over the neighbours, which returns at the first that is no water.
  deep_water_scan : List Vec2 → W → Vec2 → W
  deep_water_scan [] w p = w
  deep_water_scan (neighbor ∷ rest) w p =
      let go = deep_water_scan rest w p in
      if is_water (api.get_block_id w neighbor)
      then go
      else api.set_block_metadata (api.set_block w p water_block_id) p "level" (int (pos 7))

  unfoldable pub deep_water_tick_update : W → Vec2 → W
  unfolding deep_water_scan
  deep_water_tick_update w p = deep_water_scan (neighbors p) w p

  unfoldable pub deep_water_on_place : W → Vec2 → W
  deep_water_on_place w p =
      api.set_block_metadata (api.set_block_metadata w p "deep" (bool true)) p "level" (int (pos 7))

  unfoldable pub deep_water_on_break : W → Vec2 → W
  deep_water_on_break w p = api.trigger_neighbor_updates w p

module _ {F : Type 0} (to_int : F → ℤ) where
  abbrev water_refused : String → Metadata F → Interaction F
  water_refused message current_payload =
      (water_block_id, current_payload, record { success = false; message = message; effects = [] })

  fill_bucket : Metadata F → Interaction F
  fill_bucket current_payload =
      let level = number_or to_int (pos 7) (as_float (lookup "level" current_payload)) in
      let left = wrap (level -ℤ pos 3) in
      if leb_ℤ left (pos 0)
      then (
        air_block_id,
        [],
        record {
          success = true;
          message = "Вода собрана в ведро";
          effects = "particle_splash" ∷ [];
        },
      )
      else (
        water_block_id,
        insert "level" (int left) current_payload,
        record {
          success = true;
          message = "Часть воды собрана в ведро";
          effects = "particle_splash" ∷ [];
        },
      )

  use_on_water : Option String → Metadata F → Interaction F
  unfolding fill_bucket
  use_on_water none current_payload =
      water_refused "Действие не поддерживается для воды" current_payload
  use_on_water (some tool) current_payload =
      if tool == "bucket"
      then fill_bucket current_payload
      else water_refused "Действие не поддерживается для воды" current_payload

  unfoldable pub water_interaction : String → Metadata F → Metadata F → Interaction F
  unfolding use_on_water
  water_interaction action current_payload action_payload =
      if action == "use"
      then use_on_water (as_string (lookup "tool" action_payload)) current_payload
      else (if action == "place"
          then water_refused "Нельзя поместить этот блок в воду" current_payload
          else water_refused "Действие не поддерживается для воды" current_payload)
