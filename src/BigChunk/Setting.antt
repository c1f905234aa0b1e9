-- ===== src/BigChunk/Setting.antt =====
-- What a block change in a BigChunk does in a world with the built-in block types, told by their
-- identifiers: setBlockLayer in internal/world/bigchunk.go.
use mmo_game.Prelude.{
  ℕ, Bool, true, false, ◌&&◌, not, Option, none, some, [], ◌≡◌, ◌⊎◌, refl, inl, inr, Bool-cases,
  lookup, lookup-insert, lookup-delete, nat_eq, string_eq, if◌then◌else◌, ◌==◌,
}
use mmo_game.Vec.{Vec2, vec2_eq, to_chunk_coords, local_in_chunk}
use mmo_game.Block.{get}
use mmo_game.Block.Dispatch.{initial_registry}
use mmo_game.Chunk.{Chunk, at, layer_active}
use mmo_game.Chunk.Cells.{Cell, cells_of, updated, put_cell}
use mmo_game.Events.{Block, block_needs_tick, get_behavior}
use mmo_game.BigChunk.{BigChunk, blocked, panicked, finished, on_break_blocks}
use mmo_game.BigChunk.Handle.{set_block_layer, exists_active, tickables_after}
use mmo_game.BigChunk.BuiltIn.{
  one_of, break_ids, place_ids, tick_ids, on_break_ids, on_place_ids, needs_tick_ids,
}
use mmo_game.BigChunk.Blocking.{
  set_block_layer_lem, old_block, break_blocks, place_blocks, chunk_for,
}

assoc : (a b c : Bool) → (a && b && c) ≡ ((a && b) && c)
assoc true b c = refl
assoc false b c = refl

abbrev present : Bool → Option (Unit {0})
present true = some tt
present false = none

module _ {F : Type 0} where
  abbrev is_loaded : Option (Chunk F) → Bool
  is_loaded none = false
  is_loaded (some _) = true

  -- A different block comes to the active layer of a cell.
  abbrev pub changes_block : BigChunk F → Vec2 → ℕ → Block F → Bool
  changes_block bc p layer b =
      layer == layer_active
      && not (old_block (lookup (to_chunk_coords p) bc.chunks) layer (local_in_chunk p) == b.id)

  -- The old block of a loaded chunk is one whose OnBreak takes the mutex.
  abbrev pub stops_breaking : BigChunk F → Vec2 → ℕ → Block F → Bool
  stops_breaking bc p layer b =
      let o = lookup (to_chunk_coords p) bc.chunks in
      is_loaded o
      && changes_block bc p layer b
      && one_of (old_block o layer (local_in_chunk p)) break_ids

  abbrev pub stops_placing : BigChunk F → Vec2 → ℕ → Block F → Bool
  stops_placing bc p layer b = changes_block bc p layer b && one_of b.id place_ids

  -- What a block change that returns makes of the BigChunk: a chunk is kept whose one cell is
  -- replaced, the cell of the active layer is in the list of blocks that tick if its block is grass
  -- or water and else is not, and all else stays.
  pub record IsPlaced (bc bc' : BigChunk F) (p : Vec2) (layer : ℕ) (b : Block F) (cell : Cell F)
      : Type 0 where
    pub chunk : Chunk F
    pub cells :
        cells_of chunk
        ≡ updated (cells_of (chunk_for initial_registry bc p)) (at layer (local_in_chunk p)) cell
    pub chunks :
        (q : Vec2)
        → lookup q bc'.chunks ≡ (if to_chunk_coords p == q then some chunk else lookup q bc.chunks)
    pub ticks :
        (q : Vec2)
        → lookup q bc'.tickables ≡ (
            if layer == layer_active && (p == q)
            then present (one_of b.id tick_ids)
            else lookup q bc.tickables)
    pub same_coords : bc'.coords ≡ bc.coords
    pub same_events : bc'.events_in ≡ bc.events_in
    pub same_once : bc'.once_tickables ≡ bc.once_tickables
    pub same_entities : bc'.entities ≡ bc.entities

  -- The outcomes of a block change, each with its condition.
  abbrev pub Outcome : BigChunk F → Vec2 → ℕ → Block F → Type 0
  Outcome bc p layer b =
      let r = set_block_layer initial_registry bc p layer b in
      let old = cells_of (chunk_for initial_registry bc p) (at layer (local_in_chunk p)) in
      ((stops_breaking bc p layer b ≡ true) × (r ≡ blocked))
      ⊎ ((stops_breaking bc p layer b ≡ false)
          × (put_cell layer b.id b.payload old ≡ none)
          × (r ≡ panicked))
      ⊎ ((cell : Cell F) × (stops_breaking bc p layer b ≡ false)
          × (put_cell layer b.id b.payload old ≡ some cell)
          × (((stops_placing bc p layer b ≡ true) × (r ≡ blocked))
              ⊎ ((bc' : BigChunk F) × (stops_placing bc p layer b ≡ false)
                  × (r ≡ finished bc' [])
                  × IsPlaced bc bc' p layer b cell)))

  breaking_same :
      (bc : BigChunk F) (p : Vec2) (layer : ℕ) (b : Block F)
      → break_blocks initial_registry bc p layer b ≡ stops_breaking bc p layer b
  breaking_same bc p layer b = same (lookup (to_chunk_coords p) bc.chunks)
    where
      same :
          (o : Option (Chunk F))
          → (let old = old_block o layer (local_in_chunk p) in
              exists_active initial_registry o layer
              && not (old == b.id)
              && on_break_blocks (get old initial_registry))
            ≡ (let old = old_block o layer (local_in_chunk p) in
                is_loaded o && (layer == layer_active && not (old == b.id)) && one_of old break_ids)
      same none = refl
      same (some chunk) = rw (on_break_ids (old_block (some chunk) layer (local_in_chunk p))) (
          assoc (layer == layer_active)
            (not (old_block (some chunk) layer (local_in_chunk p) == b.id))
            (one_of (old_block (some chunk) layer (local_in_chunk p)) break_ids))

  placing_same :
      (bc : BigChunk F) (p : Vec2) (layer : ℕ) (b : Block F)
      → place_blocks initial_registry bc p layer b ≡ stops_placing bc p layer b
  unfolding get_behavior
  placing_same bc p layer b = rw (on_place_ids b.id) (
      assoc (layer == layer_active)
        (not (old_block (lookup (to_chunk_coords p) bc.chunks) layer (local_in_chunk p) == b.id))
        (one_of b.id place_ids))

  ticks_lem :
      (bc : BigChunk F) (p : Vec2) (layer : ℕ) (b : Block F) (q : Vec2)
      → lookup q (tickables_after initial_registry bc p layer b) ≡ (
          if layer == layer_active && (p == q)
          then present (one_of b.id tick_ids)
          else lookup q bc.tickables)
  unfolding block_needs_tick get_behavior
  ticks_lem bc p layer b q = elim (Bool-cases (layer == layer_active)) [
    | inr f ↦ rw f refl
    | inl t ↦
        rw (t, needs_tick_ids b.id)
          (elim (Bool-cases (one_of b.id tick_ids)) [
            | inl u ↦ rw u (lookup-insert q p tt bc.tickables)
            | inr u ↦ rw u (lookup-delete q p bc.tickables)
          ])
  ]

  -- In a world with the built-in block types a block is put into a BigChunk. Where another block
  -- comes to the active layer of a chunk that is loaded, the call never returns if the old block is
  -- stone, water, deep water, a tree or a cactus. Else it is a panic when the block's payload
  -- cannot be written. Else it never returns where another block comes to the active layer and is
  -- one of those five, grass or dirt. Otherwise the block's cell is replaced and the chunk kept, no
  -- other cell and no other chunk changes, the cell of the active layer is from then on in the list
  -- of blocks that tick exactly if its block is grass or water, and no other cell comes into that
  -- list or leaves it.
  pub set_block_layer-cases :
      (bc : BigChunk F) (p : Vec2) (layer : ℕ) (b : Block F) → Outcome bc p layer b
  set_block_layer-cases bc p layer b = elim (set_block_layer_lem initial_registry bc p layer b) [
    | inl (t, e) ↦ inl (rw (← breaking_same bc p layer b) t, e)
    | inr (inl (t, nil, e)) ↦ inr (inl (rw (← breaking_same bc p layer b) t, nil, e))
    | inr (inr (cell, t, made, inl (u, e))) ↦ inr (
        inr (
          cell,
          rw (← breaking_same bc p layer b) t,
          made,
          inl (rw (← placing_same bc p layer b) u, e),
        ))
    | inr (inr (cell, t, made, inr (chunk, u, same, e))) ↦ inr (
        inr (
          cell,
          rw (← breaking_same bc p layer b) t,
          made,
          inr (
            _,
            rw (← placing_same bc p layer b) u,
            e,
            record {
              chunk = chunk;
              cells = same;
              chunks = λ q. lookup-insert q (to_chunk_coords p) chunk bc.chunks;
              ticks = ticks_lem bc p layer b;
              same_coords = refl;
              same_events = refl;
              same_once = refl;
              same_entities = refl;
            },
          ),
        ))
  ]
