-- ===== src/Block/Fluid/Still.antt =====
-- When deep water turns into flowing water.
use mmo_game.Prelude.{pos, true, List, [], ◌∷◌, ◌≡◌, refl, ◌⊎◌, inl, inr, Bool-cases, All}
use mmo_game.Vec.{Vec2}
use mmo_game.Block.{int, BlockApi, water_block_id, neighbors}
use mmo_game.Block.Fluid.{is_water, deep_water_scan, deep_water_tick_update}

module _ {F W : Type 0} (api : BlockApi F W) where
  -- The block and level that deep water turns into.
  abbrev pub flooded : W → Vec2 → W
  flooded w p = api.set_block_metadata (api.set_block w p water_block_id) p "level" (int (pos 7))

  abbrev pub Surrounded : W → Vec2 → Type 0
  Surrounded w p = All (λ q. is_water (api.get_block_id w q) ≡ true) (neighbors p)

  scan_cases :
      (ps : List Vec2) (w : W) (p : Vec2)
      → (All (λ q. is_water (api.get_block_id w q) ≡ true) ps × (deep_water_scan api ps w p ≡ w))
        ⊎ ((¬ All (λ q. is_water (api.get_block_id w q) ≡ true) ps)
            × (deep_water_scan api ps w p ≡ flooded w p))
  unfolding deep_water_scan
  scan_cases [] w p = inl (tt, refl)
  scan_cases (q ∷ ps) w p = elim (Bool-cases (is_water (api.get_block_id w q))) [
    | inl wet ↦ elim (scan_cases ps w p) [
      | inl (all, e) ↦ inl ((wet, all), rw wet e)
      | inr (some_dry, e) ↦ inr (λ a. some_dry a.1, rw wet e)
    ]
    | inr dry ↦ inr (λ a. cc, rw dry refl)
  ]

  -- A tick leaves deep water as it is when its four neighbours are water or deep water, and turns
  -- it into water of level 7 when one is not.
  pub deep_water_tick_cases :
      (w : W) (p : Vec2)
      → (Surrounded w p × (deep_water_tick_update api w p ≡ w))
        ⊎ ((¬ Surrounded w p) × (deep_water_tick_update api w p ≡ flooded w p))
  unfolding deep_water_tick_update
  deep_water_tick_cases w p = scan_cases (neighbors p) w p
