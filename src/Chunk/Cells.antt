-- ===== src/Chunk/Cells.antt =====
-- A chunk as its readers see it: one cell for each layer and each local position.
use mathlib.Core.Option.{map as map_option}
use mmo_game.Prelude.{
  ◌>>=◌, ℕ, String, Bool, true, false, Option, none, some, [], ◌∷◌, ◌≡◌, refl, ap, sym, ◌∙◌, inl,
  inr, lookup, insert, lookup-insert, if◌then◌else◌, leb, beq_cases, beq_self, string_eq, nat_eq,
}
use mmo_game.Vec.{Vec2, local_in_chunk}
use mmo_game.Chunk.Payload.{in_range_local}
use mmo_game.Block.{Value, Metadata, Registry}
use mmo_game.Chunk.{
  Chunk, BlockCoord, coord_eq, coord_beq, at, max_layers, write_block, write_layer, write_note,
  set_block_layer, set_block_metadata_layer, is_nil, or_empty, metadata_at,
}

-- The identifier and, as far as it is there, the metadata.
pub record Cell (F : Type 0) : Type 0 where
  pub id : ℕ
  pub notes : Option (Option (Metadata F))

abbrev pub Cells : Type 0 → Type 0
Cells F = BlockCoord → Cell F

abbrev pub id_at : {F : Type 0} → Chunk F → BlockCoord → ℕ
id_at chunk k = if leb max_layers k.layer then 0 else chunk.blocks k

abbrev pub cells_of : {F : Type 0} → Chunk F → Cells F
cells_of chunk k = record { id = id_at chunk k; notes = lookup k chunk.metadata }

abbrev pub updated : {F : Type 0} → Cells F → BlockCoord → Cell F → Cells F
updated cells k cell j = if coord_beq k j then cell else cells j

-- Metadata are written to a map that is made when there is none, and that must not be nil.
abbrev pub note_cell : {F : Type 0} → Cell F → String → Value F → Option (Cell F)
note_cell cell key value =
    if is_nil cell.notes
    then none
    else some (record cell { notes = some (some (insert key value (or_empty cell.notes))) })

abbrev pub note_all : {F : Type 0} → Cell F → Metadata F → Option (Cell F)
note_all cell [] = some cell
note_all cell ((key, value) ∷ payload) = do cell' ← note_cell cell key value; note_all cell' payload

abbrev pub renamed : {F : Type 0} → ℕ → Cell F → ℕ → Cell F
renamed layer cell id = record cell { id = if leb max_layers layer then 0 else id }

-- The cell that a block with its payload leaves in place of a cell.
unfoldable pub put_cell : {F : Type 0} → ℕ → ℕ → Metadata F → Cell F → Option (Cell F)
put_cell layer id payload cell = note_all (renamed layer cell id) payload

module _ {F : Type 0} where
  pub updated_same : (cells : Cells F) (k : BlockCoord) → updated cells k (cells k) ≡ cells
  updated_same cells k i j = same j i
    where
      same : (j : BlockCoord) → updated cells k (cells k) j ≡ cells j
      same j = elim (beq_cases coord_eq k j) [ inl (t, e) ↦ rw t (ap cells e) | inr f ↦ rw f refl ]

  pub updated_twice :
      (cells : Cells F) (k : BlockCoord) (a b : Cell F)
      → updated (updated cells k a) k b ≡ updated cells k b
  updated_twice cells k a b i j = same (coord_beq k j) i
    where
      same : (t : Bool) → (if t then b else (if t then a else cells j)) ≡ (if t then b else cells j)
      same true = refl
      same false = refl

  pub updated_self : (cells : Cells F) (k : BlockCoord) (a : Cell F) → updated cells k a k ≡ a
  updated_self cells k a = rw (beq_self coord_eq k) refl

  noted : Chunk F → BlockCoord → String → Value F → Cell F
  noted chunk k key value = record {
    id = id_at chunk k;
    notes = some (some (insert key value (metadata_at chunk k)));
  }

  cells_of-write_note :
      (chunk : Chunk F) (layer : ℕ) (p : Vec2) (key : String) (value : Value F) (j : BlockCoord)
      → cells_of (write_note chunk layer p key value) j
        ≡ updated (cells_of chunk) (at layer p) (noted chunk (at layer p) key value) j
  unfolding write_note noted
  cells_of-write_note chunk layer p key value j =
      let v = some (insert key value (metadata_at chunk (at layer p))) in
      elim (beq_cases coord_eq (at layer p) j) [
        | inl (t, e) ↦
            let q : lookup j (insert (at layer p) v chunk.metadata) ≡ some v =
              rw (lookup-insert j (at layer p) v chunk.metadata, t) refl in
            rw t (λ i. record { id = id_at chunk (sym e i); notes = q i })
        | inr f ↦
            let q : lookup j (insert (at layer p) v chunk.metadata) ≡ lookup j chunk.metadata =
              rw (lookup-insert j (at layer p) v chunk.metadata, f) refl in
            rw f (λ i. record { id = id_at chunk j; notes = q i })
      ]

  -- One metadata entry written to a chunk is written to its cell, and to no other.
  pub cells_of-note :
      (chunk : Chunk F) (layer : ℕ) (p : Vec2) (key : String) (value : Value F)
      → map_option cells_of (set_block_metadata_layer chunk layer p key value)
        ≡ map_option
            (updated (cells_of chunk) (at layer p))
            (note_cell (cells_of chunk (at layer p)) key value)
  unfolding set_block_metadata_layer noted
  cells_of-note chunk layer p key value = decided (is_nil (lookup (at layer p) chunk.metadata)) refl
    where
      decided :
          (t : Bool)
          → is_nil (lookup (at layer p) chunk.metadata) ≡ t
          → map_option cells_of (set_block_metadata_layer chunk layer p key value)
            ≡ map_option
                (updated (cells_of chunk) (at layer p))
                (note_cell (cells_of chunk (at layer p)) key value)
      decided true nil = rw nil refl
      decided false made =
          rw made (ap some (λ i j. cells_of-write_note chunk layer p key value j i))

  pub updated_at :
      (cells : Cells F) (k j : BlockCoord) (cell c : Cell F)
      → (k ≡ j → c ≡ cell)
      → (coord_beq k j ≡ false → c ≡ cells j)
      → c ≡ updated cells k cell j
  updated_at cells k j cell c here there = elim (beq_cases coord_eq k j) [
    | inl (t, e) ↦ rw t (here e)
    | inr f ↦ rw f (there f)
  ]

  renamed_far :
      (chunk : Chunk F) (k j : BlockCoord) (block_id : ℕ)
      → leb max_layers k.layer ≡ true
      → cells_of chunk j
        ≡ updated (cells_of chunk) k (renamed k.layer (cells_of chunk k) block_id) j
  renamed_far chunk k j block_id t =
      let none_there : id_at chunk k ≡ (if leb max_layers k.layer then 0 else block_id) =
        rw t refl in
      let same : cells_of chunk k ≡ renamed k.layer (cells_of chunk k) block_id =
        λ i. record { id = none_there i; notes = lookup k chunk.metadata } in
      updated_at (cells_of chunk) k j (renamed k.layer (cells_of chunk k) block_id)
        (cells_of chunk j) (λ e. ap (cells_of chunk) (sym e) ∙ same) (λ f. refl)

  id_at-write_here :
      (chunk : Chunk F) (k : BlockCoord) (block_id : ℕ)
      → (if leb max_layers k.layer then 0 else write_block chunk.blocks k block_id k)
        ≡ (if leb max_layers k.layer then 0 else block_id)
  id_at-write_here chunk k block_id = rw (beq_self coord_eq k) refl

  id_at-write_there :
      (chunk : Chunk F) (k j : BlockCoord) (block_id : ℕ)
      → coord_beq k j ≡ false
      → (if leb max_layers j.layer then 0 else write_block chunk.blocks k block_id j)
        ≡ id_at chunk j
  id_at-write_there chunk k j block_id f = rw f refl

  renamed_near :
      (registry : Registry) (chunk : Chunk F) (layer : ℕ) (p : Vec2) (j : BlockCoord) (block_id : ℕ)
      → cells_of (write_layer registry chunk layer p block_id) j
        ≡ updated
            (cells_of chunk)
            (at layer p)
            (renamed layer (cells_of chunk (at layer p)) block_id)
            j
  unfolding write_layer
  renamed_near registry chunk layer p j block_id =
      let k = at layer p in
      updated_at (cells_of chunk) k j (renamed layer (cells_of chunk k) block_id)
        (cells_of (write_layer registry chunk layer p block_id) j)
        (λ e. ap (cells_of (write_layer registry chunk layer p block_id)) (sym e) ∙ (λ i. record {
          id = id_at-write_here chunk k block_id i;
          notes = lookup k chunk.metadata;
        }))
        (λ f i. record {
          id = id_at-write_there chunk k j block_id f i;
          notes = lookup j chunk.metadata;
        })

  -- A block identifier written at the local coordinates of a block, on any layer, is written to
  -- its cell, and to no other; it is not a panic.
  pub cells_of-set_block_layer :
      (registry : Registry) (chunk : Chunk F) (layer : ℕ) (p : Vec2) (block_id : ℕ)
      → map_option cells_of (set_block_layer registry chunk layer (local_in_chunk p) block_id)
        ≡ some (
            updated
              (cells_of chunk)
              (at layer (local_in_chunk p))
              (renamed layer (cells_of chunk (at layer (local_in_chunk p))) block_id))
  unfolding set_block_layer
  cells_of-set_block_layer registry chunk layer p block_id = decided (leb max_layers layer) refl
    where
      kept :
          leb max_layers layer ≡ true
          → set_block_layer registry chunk layer (local_in_chunk p) block_id ≡ some chunk
      kept t = rw t refl

      wrote :
          leb max_layers layer ≡ false
          → set_block_layer registry chunk layer (local_in_chunk p) block_id
            ≡ some (write_layer registry chunk layer (local_in_chunk p) block_id)
      wrote t = rw (t, in_range_local p) refl

      decided :
          (t : Bool)
          → leb max_layers layer ≡ t
          → map_option cells_of (set_block_layer registry chunk layer (local_in_chunk p) block_id)
            ≡ some (
                updated
                  (cells_of chunk)
                  (at layer (local_in_chunk p))
                  (renamed layer (cells_of chunk (at layer (local_in_chunk p))) block_id))
      decided true t =
          ap (map_option cells_of) (kept t)
          ∙ ap some (λ i j. renamed_far chunk (at layer (local_in_chunk p)) j block_id t i)
      decided false t =
          ap (map_option cells_of) (wrote t)
          ∙ ap some (λ i j. renamed_near registry chunk layer (local_in_chunk p) j block_id i)
