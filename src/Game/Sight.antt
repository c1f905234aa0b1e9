-- ===== src/Game/Sight.antt =====
-- The handlers of blocks and of movement against the plain map of the world's cells.
use mathlib.Core.Option.{map as map_option}
use mmo_game.Prelude.{
  ℕ, String, Bool, true, false, not, ◌&&◌, ◌||◌, Option, none, some, ◌≡◌, refl, ap, ◌∙◌, inl, inr,
  Bool-cases, if◌then◌else◌, ◌==◌, nat_eq,
}
use mmo_game.Prelude.Outcome.{Outcome, done, asserted, ◌>>=◌}
use mmo_game.Vec.{Vec2}
use mmo_game.Vec.Float.{FloatOps}
use mmo_game.Block.{Registry, air_block_id}
use mmo_game.Block.Dispatch.{is_passable_block}
use mmo_game.Chunk.{Chunk, at, layer_active, layer_floor}
use mmo_game.Chunk.Cells.{Cells}
use mmo_game.Events.{Block, new_block, Entities}
use mmo_game.Entity.{Entity, Draws}
use mmo_game.World.{World, get_block, get_block_layer, set_block}
use mmo_game.World.View.{view}
use mmo_game.World.Refine.{cell_block, put, get_block_layer-view, set_block_layer-view}
use mmo_game.Game.{
  Game, read_block, write_block, is_position_walkable, spawn_entity, spawn_entity_with_id,
}
use mmo_game.Game.Actions.{ActionRequest, Acted, further, refuse}
use mmo_game.Game.Items.{placed_id, place_at, handle_build_place, break_at, handle_build_break}

-- Where an entity can stand.
abbrev pub walkable : {F : Type 0} → Registry → Cells F → Vec2 → Bool
walkable registry cells p =
    is_passable_block registry (cells (at layer_active p)).id
    && (not ((cells (at layer_active p)).id == air_block_id)
        || not ((cells (at layer_floor p)).id == air_block_id))

-- A block put where there is air.
abbrev pub put_in_air : {F : Type 0} → Registry → Cells F → Vec2 → ℕ → Outcome (Cells F × Bool)
put_in_air registry cells p id =
    if (cells (at layer_active p)).id == air_block_id
    then (asserted (put cells p layer_active (new_block registry id)) >>= λ cells'.
        done (cells', true))
    else done (cells, false)

-- Air put where there is a block.
abbrev pub dig : {F : Type 0} → Registry → Cells F → Vec2 → Outcome (Cells F × Bool)
dig registry cells p =
    if (cells (at layer_active p)).id == air_block_id
    then done (cells, false)
    else (asserted (put cells p layer_active (new_block registry air_block_id)) >>= λ cells'.
        done (cells', true))

module _ {F : Type 0} (registry : Registry) (load : Vec2 → Entities F → Entities F)
    (generate : Vec2 → Chunk F) where
  -- What an action leaves of the world, and whether it is answered as a success.
  abbrev pub seen : Acted F → Outcome (Cells F × Bool)
  seen o = o >>= λ (g, reply, sent). done (view generate g.world, reply.success)

  get_block-view :
      (w : World F) (p : Vec2)
      → (w' : World F) × (get_block load generate w p
          ≡ (w', some (cell_block (view generate w (at layer_active p)))))
        × (view generate w' ≡ view generate w)
  unfolding get_block
  get_block-view w p = get_block_layer-view load generate w p layer_active

  read_block-view :
      (w : World F) (p : Vec2)
      → (w' : World F) × (read_block registry load generate w p
          ≡ done (w', cell_block (view generate w (at layer_active p))))
        × (view generate w' ≡ view generate w)
  unfolding read_block
  read_block-view w p =
      let (w', reads, same) = get_block-view w p in
      (w', ap (λ (r : World F × Option (Block F)). asserted r.1 >>= λ b. done (r.0, b)) reads, same)

  -- IsPositionWalkable never panics, leaves the world's cells as they are, and says whether the
  -- block in the active layer is passable and, when it is air, there is a floor under it.
  pub is_position_walkable-view :
      (w : World F) (p : Vec2)
      → (w' : World F) × (is_position_walkable registry load generate w p
          ≡ done (w', walkable registry (view generate w) p))
        × (view generate w' ≡ view generate w)
  unfolding is_position_walkable
  is_position_walkable-view w p =
      let cells = view generate w in
      let (w₁, reads, same) = get_block_layer-view load generate w p layer_active in
      let (w₂, below, still) = get_block_layer-view load generate w₁ p layer_floor in
      let floor : get_block_layer load generate w₁ p layer_floor
          ≡ (w₂, some (cell_block (cells (at layer_floor p)))) =
        below ∙ (λ i. (w₂, some (cell_block (same i (at layer_floor p))))) in
      let id = (cells (at layer_active p)).id in
      elim (Bool-cases (is_passable_block registry id)) [
        | inr f ↦ (w₁, rw (reads, f) refl, same)
        | inl t ↦ elim (Bool-cases (id == air_block_id)) [
          | inr f ↦ (w₁, rw (reads, t, f) refl, same)
          | inl air ↦ (w₂, rw (reads, floor, t, air) refl, still ∙ same)
        ]
      ]

  write_block-seen :
      (o : Option (World F)) (q : Option (Cells F)) (f : World F → Acted F)
      → map_option (view generate) o ≡ q
      → ((w : World F) → seen (f w) ≡ done (view generate w, true))
      → seen (asserted o >>= f) ≡ (asserted q >>= λ cells. done (cells, true))
  write_block-seen none q f e h = rw⁻¹ e refl
  write_block-seen (some w) q f e h = rw⁻¹ e (h w)

  set_block-view :
      (w : World F) (p : Vec2) (b : Block F)
      → map_option (view generate) (set_block registry load generate w p b)
        ≡ put (view generate w) p layer_active b
  unfolding set_block
  set_block-view w p b = set_block_layer-view load generate registry w p layer_active b

module _ {F : Type 0} (ops : FloatOps F) (registry : Registry)
    (load : Vec2 → Entities F → Entities F) (generate : Vec2 → Chunk F) where
  -- Whether or not the position is in reach.
  reached-seen :
      (g : Game F) (far : Bool) (o : Acted F) (q : Outcome (Cells F × Bool))
      → seen registry load generate o ≡ q
      → seen registry load generate (if far then refuse g "Слишком далеко" else o)
        ≡ (if far then done (view generate g.world, false) else q)
  reached-seen g true o q e = refl
  reached-seen g false o q e = e

  place_at-seen :
      (g : Game F) (actor : Entity F) (item : Option ℕ) (p : Vec2)
      → seen registry load generate (place_at ops registry load generate g actor item (some p)) ≡ (
          if further ops actor.position p 5
          then done (view generate g.world, false)
          else put_in_air registry (view generate g.world) p (placed_id item))
  unfolding place_at write_block
  place_at-seen g actor item p =
      let (w', reads, same) = read_block-view registry load generate g.world p in
      let b = new_block registry (placed_id item) in
      let cells = view generate g.world in
      reached-seen g (further ops actor.position p 5) _ _
        (elim (Bool-cases ((cells (at layer_active p)).id == air_block_id)) [
          | inl air ↦
              rw (reads, air)
                (write_block-seen registry load generate _ (put cells p layer_active b) _
                  (set_block-view registry load generate w' p b
                    ∙ ap (λ (c : Cells F). put c p layer_active b) same)
                  λ w. refl)
          | inr f ↦ rw (reads, f) (λ i. done (same i, false))
        ])

module _ {F : Type 0} (ops : FloatOps F) (registry : Registry)
    (load : Vec2 → Entities F → Entities F) (generate : Vec2 → Chunk F) (format_uint : ℕ → String)
    (draws : Draws F) where
  break_at-seen :
      (g : Game F) (actor : Entity F) (p : Vec2)
      → seen registry load generate
          (break_at ops registry load generate format_uint draws g actor (some p))
        ≡ (if further ops actor.position p 5
            then done (view generate g.world, false)
            else dig registry (view generate g.world) p)
  unfolding break_at write_block spawn_entity spawn_entity_with_id
  break_at-seen g actor p =
      let (w', reads, same) = read_block-view registry load generate g.world p in
      let b = new_block registry air_block_id in
      let cells = view generate g.world in
      reached-seen ops registry load generate g (further ops actor.position p 5) _ _
        (elim (Bool-cases ((cells (at layer_active p)).id == air_block_id)) [
          | inl air ↦ rw (reads, air) (λ i. done (same i, false))
          | inr f ↦
              rw (reads, f)
                (write_block-seen registry load generate _ (put cells p layer_active b) _
                  (set_block-view registry load generate w' p b
                    ∙ ap (λ (c : Cells F). put c p layer_active b) same)
                  λ w. refl)
        ])

  -- Placing and breaking a block, at a position that the request names, do to the world's cells and
  -- answer, panics included, what they do on the plain map: beyond a distance of 5 they do nothing
  -- and are a failure; else placing puts the item's block where there is air, and breaking puts air
  -- where there is none, and these are a success, and anything else is a failure that changes
  -- nothing.
  pub build-refines :
      (g : Game F) (actor : Entity F) (action : ActionRequest) (p : Vec2)
      → action.position ≡ some p
      → (seen registry load generate (handle_build_place ops registry load generate g actor action)
          ≡ (if further ops actor.position p 5
              then done (view generate g.world, false)
              else put_in_air registry (view generate g.world) p (placed_id action.item_id)))
        × (seen registry load generate
              (handle_build_break ops registry load generate format_uint draws g actor action)
            ≡ (if further ops actor.position p 5
                then done (view generate g.world, false)
                else dig registry (view generate g.world) p))
  unfolding handle_build_place handle_build_break
  build-refines g actor action p named = (
    rw named (place_at-seen ops registry load generate g actor action.item_id p),
    rw named (break_at-seen g actor p),
  )
