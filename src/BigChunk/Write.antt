-- ===== src/BigChunk/Write.antt =====
-- A block written to a chunk, as the chunk's readers see it.
use mathlib.Core.Option.{map as map_option}
use mmo_game.Prelude.{ℕ, Option, ◌⊎◌, none, some, [], ◌∷◌, ◌≡◌, refl, ap, sym, ◌∙◌, inl, inr, arith}
use mmo_game.Vec.{Vec2, local_in_chunk}
use mmo_game.Block.{Metadata, Registry}
use mmo_game.Chunk.{
  Chunk, BlockCoord, coord_eq, at, set_block_layer as write_chunk, set_block_metadata_layer,
}
use mmo_game.Chunk.Cells.{
  Cell, Cells, cells_of, updated, note_cell, note_all, renamed, updated_same, updated_twice,
  updated_self, cells_of-note, cells_of-set_block_layer, put_cell,
}
use mmo_game.Events.{Block}
use mmo_game.BigChunk.Handle.{set_payload, write_block_to}

-- Two options that map to the same: where one holds a value, so does the other.
pub matched {ℓ μ κ} :
    {A : Type ℓ} {B : Type μ} {C : Type κ} (f : A → C) (g : B → C) (o : Option A) (q : Option B)
    → map_option f o ≡ map_option g q
    → ((o ≡ none) × (q ≡ none)) ⊎ ((a : A) × (b : B) × (o ≡ some a) × (q ≡ some b) × (f a ≡ g b))
matched f g none none h = inl (refl, refl)
matched f g none (some b) h = cc
matched f g (some a) none h = cc
matched f g (some a) (some b) h = inr (a, b, refl, refl, ground arith)

module _ {F : Type 0} where
  -- The update of a cell that has just been updated.
  updated_over :
      (cells : Cells F) (k : BlockCoord) (cell : Cell F) (o : Cell F → Option (Cell F))
      → map_option (updated (updated cells k cell) k) (o (updated cells k cell k))
        ≡ map_option (updated cells k) (o cell)
  updated_over cells k cell o =
      ap (λ c. map_option (updated (updated cells k cell) k) (o c)) (updated_self cells k cell)
      ∙ ap (λ f. map_option f (o cell)) (λ i b. updated_twice cells k cell b i)

  -- The loop over a payload changes the block's cell entry by entry, and no other cell.
  pub cells_of-set_payload :
      (chunk : Chunk F) (layer : ℕ) (p : Vec2) (payload : Metadata F)
      → map_option cells_of (set_payload chunk layer p payload)
        ≡ map_option
            (updated (cells_of chunk) (at layer p))
            (note_all (cells_of chunk (at layer p)) payload)
  unfolding set_payload
  cells_of-set_payload chunk layer p [] = ap some (sym (updated_same (cells_of chunk) (at layer p)))
  cells_of-set_payload chunk layer p ((key, value) ∷ payload) =
      elim (matched cells_of (updated (cells_of chunk) (at layer p))
        (set_block_metadata_layer chunk layer p key value)
        (note_cell (cells_of chunk (at layer p)) key value)
        (cells_of-note chunk layer p key value)) [
          | inl (panic, nil) ↦ rw (panic, nil) refl
          | inr (chunk', cell, ok, made, same) ↦
              rw (ok, made)
                (cells_of-set_payload chunk' layer p payload
                  ∙ ap
                      (λ (cells : Cells F).
                        map_option (updated cells (at layer p))
                          (note_all (cells (at layer p)) payload))
                      same
                  ∙ updated_over (cells_of chunk) (at layer p) cell (λ c. note_all c payload))
        ]

  found_value {ℓ} :
      {C : Type ℓ} (f : Chunk F → C) (o : Option (Chunk F)) (c : C)
      → map_option f o ≡ some c
      → (chunk : Chunk F) × (o ≡ some chunk) × (f chunk ≡ c)
  found_value f none c h = cc
  found_value f (some chunk) c h = (chunk, refl, ground arith)

  -- A block written at the local coordinates of a block, on any layer, changes the block's cell, and
  -- no other cell; the write is a panic just when the cell refuses its payload.
  pub cells_of-write_block_to :
      (registry : Registry) (chunk : Chunk F) (layer : ℕ) (p : Vec2) (b : Block F)
      → map_option cells_of (write_block_to registry chunk layer (local_in_chunk p) b)
        ≡ map_option
            (updated (cells_of chunk) (at layer (local_in_chunk p)))
            (put_cell layer b.id b.payload (cells_of chunk (at layer (local_in_chunk p))))
  unfolding write_block_to put_cell
  cells_of-write_block_to registry chunk layer p b =
      let k = at layer (local_in_chunk p) in
      let cell = renamed layer (cells_of chunk k) b.id in
      let (chunk', ok, same) =
        found_value cells_of (write_chunk registry chunk layer (local_in_chunk p) b.id)
          (updated (cells_of chunk) k cell)
          (cells_of-set_block_layer registry chunk layer p b.id) in
      rw ok (
        cells_of-set_payload chunk' layer (local_in_chunk p) b.payload
        ∙ ap (λ (cells : Cells F). map_option (updated cells k) (note_all (cells k) b.payload)) same
        ∙ updated_over (cells_of chunk) k cell (λ c. note_all c b.payload))
