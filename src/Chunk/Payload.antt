-- ===== src/Chunk/Payload.antt =====
-- What a chunk's readers see after a write.
use mmo_game.Prelude.{
  ℕ, List, ◌<◌, Bool-cases, lookup, lookup-insert_self, Option, none, String, Bool, true, false,
  some, ◌≡◌, refl, inl, inr, arith, insert, lookup-insert, if◌then◌else◌, leb, ◌==◌, string_eq,
  beq_cases,
}
use mmo_game.Vec.{Vec2, local_in_chunk}
use mmo_game.Vec.Grid.{IsLocal, local_in_chunk-IsLocal}
use mmo_game.Block.{Value, Metadata, Behavior, simple, Registry}
use mmo_game.Chunk.{
  Chunk, coord_eq, coord_beq, at, in_range, max_layers, write_layer, get_block_layer,
  set_block_layer, layer_active, set_block_metadata, set_block_with_behavior, write_behavior,
  write_note, is_nil, created_metadata, created_map, BlockCoord, get_block_metadata_value,
  metadata_at,
}

pub in_range_local : (v : Vec2) → in_range (local_in_chunk v) ≡ true
in_range_local v = checked (local_in_chunk v) (local_in_chunk-IsLocal v)
  where
    checked : (l : Vec2) → IsLocal l → in_range l ≡ true
    checked l h = ground arith

abbrev same_block : ℕ → Vec2 → ℕ → Vec2 → Bool
same_block a v b w = coord_beq (at a (local_in_chunk v)) (at b (local_in_chunk w))

module _ {F : Type 0} where
  -- SetBlockLayer at the local coordinates of any block, on a layer that exists, does not panic;
  -- GetBlockLayer then sees the new block there, and elsewhere what it saw before.
  pub get-set_block_layer :
      (registry : Registry) (c : Chunk F) (layer other : ℕ) (v w : Vec2) (block_id : ℕ)
      → layer < max_layers
      → (d : Chunk F) × (set_block_layer registry c layer (local_in_chunk v) block_id ≡ some d)
        × (get_block_layer d other (local_in_chunk w) ≡ (
            if same_block layer v other w
            then some block_id
            else get_block_layer c other (local_in_chunk w)))
  unfolding set_block_layer get_block_layer
  get-set_block_layer registry c layer other v w block_id h = (
    write_layer registry c layer (local_in_chunk v) block_id,
    wrote,
    seen (leb max_layers other) refl (same_block layer v other w) refl,
  )
    where
      near : leb max_layers layer ≡ false
      near = ground arith

      wrote :
          set_block_layer registry c layer (local_in_chunk v) block_id
          ≡ some (write_layer registry c layer (local_in_chunk v) block_id)
      wrote = rw (near, in_range_local v) refl

      seen :
          (far : Bool)
          → leb max_layers other ≡ far
          → (same : Bool) → same_block layer v other w ≡ same
          → get_block_layer
              (write_layer registry c layer (local_in_chunk v) block_id)
              other
              (local_in_chunk w)
            ≡ (if same then some block_id else get_block_layer c other (local_in_chunk w))
      seen true far true same = absurd (ground arith)
      seen true far false same = rw far refl
      seen false far true same = rw (far, in_range_local w) (rw same refl)
      seen false far false same = rw (far, in_range_local w) (rw same refl)

  -- Where a metadata write does not panic, the value is read back as it was written, and the write
  -- moves no other key and no other block's metadata.
  pub get-set_block_metadata :
      (c d : Chunk F) (p q : Vec2) (k j : String) (v : Value F)
      → set_block_metadata c p k v ≡ some d
      → get_block_metadata_value d q j ≡ (
          if coord_beq (at layer_active p) (at layer_active q)
          then (if k == j then some v else get_block_metadata_value c q j)
          else get_block_metadata_value c q j)
  unfolding get_block_metadata_value set_block_metadata
  get-set_block_metadata c d p q k j v h =
      elim (Bool-cases (is_nil (lookup (at layer_active p) c.metadata))) [
        | inl nil ↦ cc (rw nil at h)
        | inr there ↦
            let same : write_note c layer_active p k v ≡ d = ground arith in
            rw (← same) (written (unfold write_note in refl))
      ]
    where
      written :
          (write_note c layer_active p k v).metadata
            ≡ insert
                (at layer_active p)
                (some (insert k v (metadata_at c (at layer_active p))))
                c.metadata
          → lookup j (metadata_at (write_note c layer_active p k v) (at layer_active q)) ≡ (
              if coord_beq (at layer_active p) (at layer_active q)
              then (if k == j then some v else lookup j (metadata_at c (at layer_active q)))
              else lookup j (metadata_at c (at layer_active q)))
      written e =
          rw
            (
              e,
              lookup-insert (at layer_active q) (at layer_active p)
                  (some (insert k v (metadata_at c (at layer_active p)))) c.metadata,
            )
            (elim (beq_cases coord_eq (at layer_active p) (at layer_active q)) [
              | inl (same, f) ↦
                  rw (same, f) (lookup-insert j k v (metadata_at c (at layer_active q)))
              | inr other ↦ rw other refl
            ])

  created-new :
      (behavior : Behavior) (k : BlockCoord) (m : List (BlockCoord × Option (Metadata F)))
      → lookup k m ≡ none
      → lookup k (created_metadata behavior k m) ≡ some (created_map behavior)
  unfolding created_metadata
  created-new behavior k m h =
      rw (h, created_metadata) (lookup-insert_self k (created_map behavior) m)

  -- Once SetBlockWithBehavior has placed a behaviour that was loaded from JSON on a block that had
  -- no metadata, every write of that block's metadata panics.
  pub nil_metadata_panics :
      (c d : Chunk F) (p : Vec2) (n : ℕ) (name key : String) (v : Value F)
      → lookup (at layer_active p) c.metadata ≡ none
      → set_block_with_behavior c p (simple n name) ≡ some d
      → set_block_metadata d p key v ≡ none
  unfolding set_block_with_behavior set_block_metadata write_behavior
  nil_metadata_panics c d p n name key v new h = elim (Bool-cases (in_range p)) [
    | inr bad ↦ cc (rw bad at h)
    | inl good ↦
        let same : write_behavior c p (simple n name) ≡ d = ground arith in
        rw (← same, created-new (simple n name) (at layer_active p) c.metadata new) refl
  ]
