-- ===== src/BigChunk/Blocking.antt =====
-- When a BigChunk's handlers never return, and what a block change does when it does.
use mmo_game.Prelude.{
  ℕ, Bool, true, false, ◌&&◌, not, Option, none, some, List, [], ◌≡◌, ◌⊎◌, refl, ap, sym, ◌∙◌, inl,
  inr, Bool-cases, lookup, lookup-insert_self, insert, nat_eq, if◌then◌else◌, ◌==◌, leb, beq_cases,
  arith,
}
use mmo_game.Vec.{Vec2, vec2_eq, to_chunk_coords, local_in_chunk}
use mmo_game.Block.{Registry, get}
use mmo_game.Chunk.{
  Chunk, BlockCoord, coord_eq, new_chunk, at, layer_active, max_layers,
  get_block_layer as read_chunk,
}
use mmo_game.Chunk.Payload.{in_range_local}
use mmo_game.Chunk.Cells.{Cell, cells_of, updated, put_cell}
use mmo_game.Events.{Block, get_behavior}
use mmo_game.BigChunk.{
  BigChunk, Send, blocked, panicked, finished, chunk_or_new, on_break_blocks, on_place_blocks,
}
use mmo_game.BigChunk.Handle.{
  write_block_to, old_id, exists_active, tickables_after, place_on, set_over, set_block_layer,
}
use mmo_game.BigChunk.Write.{cells_of-write_block_to, matched}

module _ {F : Type 0} where
  -- The block that was there, as far as the code looks.
  abbrev pub old_block : Option (Chunk F) → ℕ → Vec2 → ℕ
  old_block none layer local = 0
  old_block (some chunk) layer local =
      if layer == layer_active then (cells_of chunk (at layer local)).id else 0

  old_id_lem :
      (registry : Registry) (o : Option (Chunk F)) (layer : ℕ) (p : Vec2)
      → old_id registry o layer (local_in_chunk p) ≡ some (old_block o layer (local_in_chunk p))
  unfolding old_id read_chunk
  old_id_lem registry none layer p = refl
  old_id_lem registry (some chunk) layer p = elim (beq_cases nat_eq layer layer_active) [
    | inr f ↦ rw f refl
    | inl (t, e) ↦
        let near : leb max_layers layer ≡ false = ground arith in
        rw (t, near, in_range_local p) refl
  ]

module _ {F : Type 0} (registry : Registry) where
  -- A different block is put on the active layer, and the old block's OnBreak takes the mutex.
  abbrev pub break_blocks : BigChunk F → Vec2 → ℕ → Block F → Bool
  break_blocks bc p layer b =
      let o = lookup (to_chunk_coords p) bc.chunks in
      let old = old_block o layer (local_in_chunk p) in
      exists_active registry o layer && not (old == b.id) && on_break_blocks (get old registry)

  -- A different block is put on the active layer, and its OnPlace takes the mutex.
  abbrev pub place_blocks : BigChunk F → Vec2 → ℕ → Block F → Bool
  place_blocks bc p layer b =
      let old = old_block (lookup (to_chunk_coords p) bc.chunks) layer (local_in_chunk p) in
      layer == layer_active && not (old == b.id) && on_place_blocks (get_behavior registry b)

  -- The chunk that is written to.
  abbrev pub chunk_for : BigChunk F → Vec2 → Chunk F
  chunk_for bc p = chunk_or_new (to_chunk_coords p) (lookup (to_chunk_coords p) bc.chunks)

  set_over_lem :
      (bc : BigChunk F) (p : Vec2) (layer : ℕ) (b : Block F)
      → set_block_layer registry bc p layer b
        ≡ set_over registry bc p layer b
            (lookup (to_chunk_coords p) bc.chunks)
            (some (old_block (lookup (to_chunk_coords p) bc.chunks) layer (local_in_chunk p)))
  unfolding set_block_layer
  set_over_lem bc p layer b =
      ap (set_over registry bc p layer b (lookup (to_chunk_coords p) bc.chunks))
        (old_id_lem registry (lookup (to_chunk_coords p) bc.chunks) layer p)

  placed_lem :
      (bc : BigChunk F) (p : Vec2) (layer : ℕ) (b : Block F)
      → break_blocks bc p layer b ≡ false
      → set_block_layer registry bc p layer b
        ≡ place_on registry bc p layer b
            (old_block (lookup (to_chunk_coords p) bc.chunks) layer (local_in_chunk p))
            (write_block_to registry (chunk_for bc p) layer (local_in_chunk p) b)
  unfolding set_over
  placed_lem bc p layer b h = set_over_lem bc p layer b ∙ rw h refl

  -- The outcomes of a block change, each with its condition.
  abbrev pub Ended : BigChunk F → Vec2 → ℕ → Block F → Type 0
  Ended bc p layer b =
      let local = at layer (local_in_chunk p) in
      let cells = cells_of (chunk_for bc p) in
      ((break_blocks bc p layer b ≡ true) × (set_block_layer registry bc p layer b ≡ blocked))
      ⊎ ((break_blocks bc p layer b ≡ false)
          × (put_cell layer b.id b.payload (cells local) ≡ none)
          × (set_block_layer registry bc p layer b ≡ panicked))
      ⊎ ((cell : Cell F) × (break_blocks bc p layer b ≡ false)
          × (put_cell layer b.id b.payload (cells local) ≡ some cell)
          × (((place_blocks bc p layer b ≡ true)
                × (set_block_layer registry bc p layer b ≡ blocked))
              ⊎ ((chunk : Chunk F) × (place_blocks bc p layer b ≡ false)
                  × (cells_of chunk ≡ updated cells local cell)
                  × (set_block_layer registry bc p layer b
                      ≡ finished
                          (record bc {
                            chunks = insert (to_chunk_coords p) chunk bc.chunks;
                            tickables = tickables_after registry bc p layer b;
                          })
                          []))))

  -- A block is put into a BigChunk. The call never returns when another block is put on the active
  -- layer and the OnBreak of the old block, which is called if the chunk is loaded, takes the
  -- mutex; it is a panic when the block's payload cannot be written; it never returns when the
  -- OnPlace of the new block takes the mutex. Otherwise the block's cell is replaced, no other
  -- cell of the chunk changes, the chunk is kept, and the list of blocks that tick follows the
  -- active layer.
  pub set_block_layer_lem :
      (bc : BigChunk F) (p : Vec2) (layer : ℕ) (b : Block F) → Ended bc p layer b
  unfolding set_over place_on
  set_block_layer_lem bc p layer b =
      let local = at layer (local_in_chunk p) in
      let chunk = chunk_for bc p in
      elim (Bool-cases (break_blocks bc p layer b)) [
        | inl t ↦ inl (t, set_over_lem bc p layer b ∙ rw t refl)
        | inr t ↦
            elim (matched cells_of (updated (cells_of chunk) local)
              (write_block_to registry chunk layer (local_in_chunk p) b)
              (put_cell layer b.id b.payload (cells_of chunk local))
              (cells_of-write_block_to registry chunk layer p b)) [
                | inl (panic, nil) ↦ inr (inl (t, nil, placed_lem bc p layer b t ∙ rw panic refl))
                | inr (chunk', cell, ok, made, same) ↦
                    elim (Bool-cases (place_blocks bc p layer b)) [
                      | inl u ↦ inr (
                          inr (cell, t, made, inl (u, placed_lem bc p layer b t ∙ rw (ok, u) refl)))
                      | inr u ↦ inr (
                          inr (
                            cell,
                            t,
                            made,
                            inr (chunk', u, same, placed_lem bc p layer b t ∙ rw (ok, u) refl),
                          ))
                    ]
              ]
      ]

module _ {F : Type 0} (registry : Registry) where
  -- The cell of a block of which nothing is known.
  abbrev pub empty_cell : Cell F
  empty_cell = record { id = 0; notes = none }

  empty_chunk : (c : Vec2) (k : BlockCoord) → cells_of {F = F} (new_chunk c) k ≡ empty_cell
  unfolding new_chunk lookup
  empty_chunk c k = elim (Bool-cases (leb max_layers k.layer)) [
    | inl t ↦ rw t refl
    | inr t ↦ rw t refl
  ]

  other_empty :
      (c : Vec2) (k j : BlockCoord) (cell : Cell F)
      → (k ≡ j) ⊎ (updated (cells_of (new_chunk c)) k cell j ≡ empty_cell)
  other_empty c k j cell = elim (beq_cases coord_eq k j) [
    | inl (t, e) ↦ inl e
    | inr f ↦ inr (rw f (empty_chunk c j))
  ]

  finished_same :
      (a b : BigChunk F) (s t : List (Send F)) → finished a s ≡ finished b t → a.chunks ≡ b.chunks
  finished_same a b s t h = cc

  -- A block change in a chunk that the BigChunk has not loaded leaves it, when the call returns,
  -- with a chunk that has nothing but the new block: no other cell is the generator's.
  pub set_block_layer-unloaded :
      (bc bc' : BigChunk F) (p : Vec2) (layer : ℕ) (b : Block F) (sent : List (Send F))
      → lookup (to_chunk_coords p) bc.chunks ≡ none
      → set_block_layer registry bc p layer b ≡ finished bc' sent
      → (chunk : Chunk F) × (lookup (to_chunk_coords p) bc'.chunks ≡ some chunk)
        × ((k : BlockCoord) → (at layer (local_in_chunk p) ≡ k) ⊎ (cells_of chunk k ≡ empty_cell))
  set_block_layer-unloaded bc bc' p layer b sent missing h =
      elim (set_block_layer_lem registry bc p layer b) [
        | inl (t, e) ↦ cc
        | inr (inl (t, nil, e)) ↦ cc
        | inr (inr (cell, t, made, inl (u, e))) ↦ cc
        | inr (inr (cell, t, made, inr (chunk, u, same, e))) ↦ (
          chunk,
          sym (ap (lookup (to_chunk_coords p)) (finished_same _ bc' [] sent (sym e ∙ h)))
              ∙ lookup-insert_self (to_chunk_coords p) chunk bc.chunks,
          λ k.
              let new : chunk_for registry bc p ≡ new_chunk (to_chunk_coords p) =
                ap (chunk_or_new (to_chunk_coords p)) missing in
              elim (other_empty (to_chunk_coords p) (at layer (local_in_chunk p)) k cell) [
                | inl e ↦ inl e
                | inr q ↦ inr (
                    (λ i. same i k)
                    ∙ ap
                        (λ (ch : Chunk F).
                          updated (cells_of ch) (at layer (local_in_chunk p)) cell k)
                        new
                    ∙ q)
              ],
        )
      ]
