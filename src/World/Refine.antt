-- ===== src/World/Refine.antt =====
-- The world behind its methods, against a plain map from the layers of blocks to cells.
use mathlib.Core.Option.{map as map_option}
use mmo_game.Prelude.{
  ℕ, String, Option, some, ◌≡◌, refl, ap, sym, ◌∙◌, inl, inr, lookup, leb, string_eq, Bool-cases,
}
use mmo_game.Vec.{Vec2, vec2_eq, to_chunk_coords, to_big_chunk_coords, local_in_chunk}
use mmo_game.Block.{Value, Registry}
use mmo_game.Chunk.{
  Chunk, at, layer_active, max_layers, or_empty, set_block_metadata_layer, get_block_metadata_layer,
  get_block_layer as read_chunk,
}
use mmo_game.Chunk.Payload.{in_range_local}
use mmo_game.Chunk.Cells.{Cell, Cells, cells_of, updated, note_cell, put_cell, cells_of-note}
use mmo_game.Events.{Block, Entities}
use mmo_game.BigChunk.{BigChunk}
use mmo_game.BigChunk.Handle.{write_block_to}
use mmo_game.BigChunk.Write.{cells_of-write_block_to}
use mmo_game.World.{
  World, reach_of, written, block_in, get_block_layer, set_block_layer, set_block_metadata_value,
}
use mmo_game.World.View.{chunk_at, view, reach_lem}
use mmo_game.World.Writes.{view-written}

-- The plain map's reads and writes.
abbrev pub cell_block : {F : Type 0} → Cell F → Block F
cell_block cell = record { id = cell.id; payload = or_empty cell.notes }

abbrev pub put : {F : Type 0} → Cells F → Vec2 → ℕ → Block F → Option (Cells F)
put cells p layer b =
    map_option (updated cells (at layer p)) (put_cell layer b.id b.payload (cells (at layer p)))

abbrev pub note : {F : Type 0} → Cells F → Vec2 → String → Value F → Option (Cells F)
note cells p key value =
    map_option (updated cells (at layer_active p)) (note_cell (cells (at layer_active p)) key value)

module _ {F : Type 0} (load : Vec2 → Entities F → Entities F) (generate : Vec2 → Chunk F) where
  -- A method that looks at the chunk of a block goes on from a world that shows the same blocks.
  at_chunk {ℓ} :
      (A : Type ℓ) (w : World F) (p : Vec2) (f : World F × Chunk F → A)
      → (w' : World F) × (bc : BigChunk F) × (lookup (to_big_chunk_coords p) w'.big_chunks
          ≡ some bc)
        × (view generate w' ≡ view generate w)
        × (f (reach_of load generate w p)
            ≡ f (w', chunk_at generate w' (to_big_chunk_coords p) (to_chunk_coords p)))
  at_chunk A w p f =
      let k = to_big_chunk_coords p in
      let c = to_chunk_coords p in
      let (w', q, (bc, there), same) = reach_lem load generate w k c in
      (
        w',
        bc,
        there,
        λ i b.
            cells_of (same (to_big_chunk_coords b.position) (to_chunk_coords b.position) i)
              (at b.layer (local_in_chunk b.position)),
        ap f q ∙ ap (λ (chunk : Chunk F). f (w', chunk)) (sym (same k c)),
      )

  read_chunk-local :
      (chunk : Chunk F) (layer : ℕ) (p : Vec2)
      → block_in
          (get_block_metadata_layer chunk layer (local_in_chunk p))
          (read_chunk chunk layer (local_in_chunk p))
        ≡ some (cell_block (cells_of chunk (at layer (local_in_chunk p))))
  unfolding read_chunk get_block_metadata_layer
  read_chunk-local chunk layer p = elim (Bool-cases (leb max_layers layer)) [
    | inl far ↦ rw far refl
    | inr near ↦ rw (near, in_range_local p) refl
  ]

  -- GetBlockLayer returns the block of the plain map, and leaves that map as it is.
  pub get_block_layer-view :
      (w : World F) (p : Vec2) (layer : ℕ)
      → (w' : World F) × (get_block_layer load generate w p layer
          ≡ (w', some (cell_block (view generate w (at layer p)))))
        × (view generate w' ≡ view generate w)
  unfolding get_block_layer
  get_block_layer-view w p layer =
      let (w', bc, there, same, e) =
        at_chunk (World F × Option (Block F)) w p (λ (found : World F × Chunk F). (
          found.0,
          block_in (get_block_metadata_layer found.1 layer (local_in_chunk p))
              (read_chunk found.1 layer (local_in_chunk p)),
        )) in
      (
        w',
        e
            ∙ (λ i. (
              w',
              read_chunk-local (chunk_at generate w' (to_big_chunk_coords p) (to_chunk_coords p))
                  layer p i,
            ))
            ∙ (λ i. (w', some (cell_block (same i (at layer p))))),
        same,
      )

  -- SetBlockMetadataValue on the world is a note on the plain map.
  pub set_block_metadata_value-view :
      (w : World F) (p : Vec2) (key : String) (value : Value F)
      → map_option (view generate) (set_block_metadata_value load generate w p key value)
        ≡ note (view generate w) p key value
  unfolding set_block_metadata_value
  set_block_metadata_value-view w p key value =
      let (w', bc, there, same, e) = at_chunk (Option (World F)) w p (λ (found : World F × Chunk F).
        written found.0 (to_big_chunk_coords p) (to_chunk_coords p)
          (set_block_metadata_layer found.1 layer_active (local_in_chunk p) key value)) in
      let chunk = chunk_at generate w' (to_big_chunk_coords p) (to_chunk_coords p) in
      ap (map_option (view generate)) e
      ∙ view-written generate w' layer_active p bc
          (set_block_metadata_layer chunk layer_active (local_in_chunk p) key value)
          (note_cell (view generate w' (at layer_active p)) key value) there
          (cells_of-note chunk layer_active (local_in_chunk p) key value)
      ∙ ap (λ (cells : Cells F). note cells p key value) same

  -- SetBlockLayer on the world is a write to the plain map.
  pub set_block_layer-view :
      (registry : Registry) (w : World F) (p : Vec2) (layer : ℕ) (b : Block F)
      → map_option (view generate) (set_block_layer registry load generate w p layer b)
        ≡ put (view generate w) p layer b
  unfolding set_block_layer
  set_block_layer-view registry w p layer b =
      let (w', bc, there, same, e) = at_chunk (Option (World F)) w p (λ (found : World F × Chunk F).
        written found.0 (to_big_chunk_coords p) (to_chunk_coords p)
          (write_block_to registry found.1 layer (local_in_chunk p) b)) in
      let chunk = chunk_at generate w' (to_big_chunk_coords p) (to_chunk_coords p) in
      ap (map_option (view generate)) e
      ∙ view-written generate w' layer p bc
          (write_block_to registry chunk layer (local_in_chunk p) b)
          (put_cell layer b.id b.payload (view generate w' (at layer p))) there
          (cells_of-write_block_to registry chunk layer p b)
      ∙ ap (λ (cells : Cells F). put cells p layer b) same
