-- ===== src/Block/Grass.antt =====
-- Grass: grass.go. The outcomes of its three random draws are arguments.
use mmo_game.Prelude.{
  ℕ, ℤ, pos, ◌+ℤ◌, wrap, ltb_ℤ, leb_ℤ, String, Bool, true, false, ◌&&◌, ◌||◌, Option, none, some,
  [], ◌∷◌, lookup, insert, if◌then◌else◌, ◌==◌, nat_eq, string_eq, get_elem?,
}
use mmo_game.Vec.{Vec2}
use mmo_game.Block.{
  int, Metadata, as_int, as_float, as_string, Interaction, grass_block_id, dirt_block_id, BlockApi,
  neighbors,
}
use mmo_game.Block.Solid.{number_or}

-- `grows` is rand.Float32() < 0.1, `spreads` is rand.Float32() < 0.05, and `direction` is
-- rand.Intn(4).
pub record Draw : Type 0 where
  pub grows : Bool
  pub spreads : Bool
  pub direction : ℕ

module _ {F W : Type 0} (api : BlockApi F W) where
  spread_moist : Option ℤ → Vec2 → W → W
  spread_moist none target w = w
  spread_moist (some moisture) target w =
      if leb_ℤ (pos 2) moisture
      then api.set_block_metadata (api.set_block w target grass_block_id) target "growth"
          (int (pos 0))
      else w

  -- `directions[rand.Intn(4)]` is in range.
  spread_to : Option Vec2 → W → W
  unfolding spread_moist
  spread_to none w = w
  spread_to (some target) w =
      if api.get_block_id w target == dirt_block_id
      then spread_moist (as_int (api.get_block_metadata w target "moisture")) target w
      else w

  abbrev grown : Draw → ℤ → ℤ
  grown draw growth = if ltb_ℤ growth (pos 5) && draw.grows then wrap (growth +ℤ pos 1) else growth

  grow : Draw → ℤ → W → Vec2 → W
  grow draw growth w p =
      if ltb_ℤ growth (pos 5) && draw.grows
      then api.set_block_metadata w p "growth" (int (grown draw growth))
      else w

  grass_tick_growth : Draw → Option ℤ → W → Vec2 → W
  unfolding grow spread_to
  grass_tick_growth draw none w p = api.set_block_metadata w p "growth" (int (pos 0))
  grass_tick_growth draw (some growth) w p =
      let w' = grow draw growth w p in
      if leb_ℤ (pos 3) (grown draw growth) && draw.spreads
      then spread_to (get_elem? (neighbors p) draw.direction) w'
      else w'

  unfoldable pub grass_tick_update : Draw → W → Vec2 → W
  unfolding grass_tick_growth
  grass_tick_update draw w p =
      grass_tick_growth draw (as_int (api.get_block_metadata w p "growth")) w p

  unfoldable pub grass_on_place : W → Vec2 → W
  grass_on_place w p = api.set_block_metadata w p "growth" (int (pos 0))

module _ {F : Type 0} (to_int : F → ℤ) where
  abbrev grass_refused : Metadata F → Interaction F
  grass_refused current_payload = (
    grass_block_id,
    current_payload,
    record { success = false; message = "Действие не поддерживается для травы"; effects = [] },
  )

  fertilize : Metadata F → Interaction F
  fertilize current_payload =
      let growth = number_or to_int (pos 0) (as_float (lookup "growth" current_payload)) in
      if ltb_ℤ growth (pos 5)
      then (
        grass_block_id,
        insert "growth" (int (wrap (growth +ℤ pos 1))) current_payload,
        record {
          success = true;
          message = "Трава подкормлена и выросла";
          effects = "particle_fertilizer" ∷ [];
        },
      )
      else grass_refused current_payload

  use_on_grass : Option String → Metadata F → Interaction F
  unfolding fertilize
  use_on_grass none current_payload = grass_refused current_payload
  use_on_grass (some tool) current_payload =
      if tool == "fertilizer" then fertilize current_payload else grass_refused current_payload

  unfoldable pub grass_interaction : String → Metadata F → Metadata F → Interaction F
  unfolding use_on_grass
  grass_interaction action current_payload action_payload =
      if action == "mine" || action == "dig"
      then (
        dirt_block_id,
        ("moisture", int (pos 2)) ∷ [],
        record {
          success = true;
          message = "Трава выкопана, обнажилась земля";
          effects = "particle_grass" ∷ [];
        },
      )
      else (if action == "use"
          then use_on_grass (as_string (lookup "tool" action_payload)) current_payload
          else grass_refused current_payload)
