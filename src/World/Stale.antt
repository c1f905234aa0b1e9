-- ===== src/World/Stale.antt =====
-- GetChunk, which looks for a chunk in a BigChunk that it computes in a way of its own.
use mmo_game.Prelude.{
  ℕ, ℤ, pos, negsuc, ◌*ℤ◌, ◌≤ℤ◌, ◌<ℤ◌, IsInt, wrap, shr, false, Option, none, some, ◌≡◌, ◌≢◌, ◌↔◌,
  refl, ap, sym, ◌∙◌, inl, inr, beq_cases, lookup, arith,
}
use mmo_game.Vec.{Vec2, vec2_eq, vec2_beq, to_chunk_coords, to_big_chunk_coords, local_in_chunk}
use mmo_game.Block.{Registry}
use mmo_game.Chunk.{Chunk, at}
use mmo_game.Chunk.Cells.{cells_of}
use mmo_game.Events.{Block, Entities}
use mmo_game.BigChunk.{BigChunk}
use mmo_game.BigChunk.Handle.{write_block_to}
use mmo_game.World.{
  World, reach, written, write_back, kept_in, set_block_layer, get_chunk, big_chunk_of_chunk,
}
use mmo_game.World.View.{chunk_at, view, reach_lem, chunk_at-keep}

axis_big_iff :
    (a : ℤ) → IsInt a → (wrap (shr a 4 *ℤ pos 4) ≡ shr a 5) ↔ ((pos 0 ≤ℤ a) × (a <ℤ pos 16))
unfolding ◌*ℤ◌ wrap
axis_big_iff (pos n) h = ground arith
axis_big_iff (negsuc n) h = ground arith

-- The BigChunk that a chunk lies in.
abbrev pub chunk_big_chunk : Vec2 → Vec2
chunk_big_chunk c = record { x = shr c.x 5; y = shr c.y 5 }

-- GetChunk computes the BigChunk that a chunk lies in just when both coordinates of the chunk are
-- between 0 and 15.
pub big_chunk_of_chunk_iff :
    (c : Vec2)
    → IsInt c.x
    → IsInt c.y
    → (big_chunk_of_chunk c ≡ chunk_big_chunk c)
      ↔ ((pos 0 ≤ℤ c.x) × (c.x <ℤ pos 16) × (pos 0 ≤ℤ c.y) × (c.y <ℤ pos 16))
big_chunk_of_chunk_iff c h k =
    let x = axis_big_iff c.x h in
    let y = axis_big_iff c.y k in
    (
      λ e. let (a, b) = x.0 (λ i. (e i).x) in let (d, f) = y.0 (λ i. (e i).y) in (a, b, d, f),
      λ (a, b, d, f). λ i. record { x = x.1 (a, b) i; y = y.1 (d, f) i },
    )

module _ {F : Type 0} (registry : Registry) (load : Vec2 → Entities F → Entities F)
    (generate : Vec2 → Chunk F) where
  set_at :
      (w : World F) (p : Vec2) (layer : ℕ) (b : Block F) (r : World F × Chunk F)
      → reach load generate w (to_big_chunk_coords p) (to_chunk_coords p) ≡ r
      → set_block_layer registry load generate w p layer b
        ≡ written r.0
            (to_big_chunk_coords p)
            (to_chunk_coords p)
            (write_block_to registry r.1 layer (local_in_chunk p) b)
  unfolding set_block_layer
  set_at w p layer b r e =
      ap
        (λ (r : World F × Chunk F).
          written r.0 (to_big_chunk_coords p) (to_chunk_coords p)
            (write_block_to registry r.1 layer (local_in_chunk p) b))
        e

  kept_elsewhere :
      (w w' : World F) (p : Vec2) (bc : BigChunk F) (o : Option (Chunk F)) (j d : Vec2)
      → lookup (to_big_chunk_coords p) w.big_chunks ≡ some bc
      → written w (to_big_chunk_coords p) (to_chunk_coords p) o ≡ some w'
      → vec2_beq (to_big_chunk_coords p) j ≡ false
      → chunk_at generate w' j d ≡ chunk_at generate w j d
  kept_elsewhere w w' p bc none j d there h f = cc
  kept_elsewhere w w' p bc (some chunk) j d there h f =
      let k = to_big_chunk_coords p in
      let c = to_chunk_coords p in
      let e : write_back w k c chunk ≡ w' = some_inj h in
      ap (λ (w : World F). chunk_at generate w j d) (sym e)
      ∙ ap (λ (o : Option (BigChunk F)). chunk_at generate (kept_in w k c chunk o) j d) there
      ∙ chunk_at-keep generate w k c j d bc chunk there
      ∙ rw f refl
    where
      some_inj : {x y : World F} → some x ≡ some y → x ≡ y
      some_inj e = ground arith

  -- SetBlockLayer leaves the chunks of every other BigChunk as they are.
  chunk_at-set_block_layer :
      (w w' : World F) (p : Vec2) (layer : ℕ) (b : Block F) (j d : Vec2)
      → set_block_layer registry load generate w p layer b ≡ some w'
      → vec2_beq (to_big_chunk_coords p) j ≡ false
      → chunk_at generate w' j d ≡ chunk_at generate w j d
  chunk_at-set_block_layer w w' p layer b j d h f =
      let k = to_big_chunk_coords p in
      let c = to_chunk_coords p in
      let (w1, q, (bc, there), same) = reach_lem load generate w k c in
      kept_elsewhere w1 w' p bc
        (write_block_to registry (chunk_at generate w k c) layer (local_in_chunk p) b) j d there
        (sym (set_at w p layer b (w1, chunk_at generate w k c) q) ∙ h) f
      ∙ same j d

  get_chunk-at :
      (w : World F) (c : Vec2)
      → (get_chunk load generate w c).1 ≡ chunk_at generate w (big_chunk_of_chunk c) c
  unfolding get_chunk
  get_chunk-at w c =
      ap (λ (r : World F × Chunk F). r.1) (reach_lem load generate w (big_chunk_of_chunk c) c).1

  -- Where GetChunk computes the BigChunk that the block lies in, the chunk that it returns for the
  -- block's chunk shows, at the block's local coordinates on every layer, the world's block.
  pub get_chunk-view :
      (w : World F) (p : Vec2) (layer : ℕ)
      → big_chunk_of_chunk (to_chunk_coords p) ≡ to_big_chunk_coords p
      → cells_of (get_chunk load generate w (to_chunk_coords p)).1 (at layer (local_in_chunk p))
        ≡ view generate w (at layer p)
  get_chunk-view w p layer same =
      ap (λ (chunk : Chunk F). cells_of chunk (at layer (local_in_chunk p)))
        (get_chunk-at w (to_chunk_coords p)
          ∙ ap (λ (k : Vec2). chunk_at generate w k (to_chunk_coords p)) same)

  -- A write to a block does not reach the chunk that GetChunk returns for the block's chunk, when
  -- GetChunk computes another BigChunk for it than the one that the block lies in.
  pub get_chunk_stale :
      (w w' : World F) (p : Vec2) (layer : ℕ) (b : Block F)
      → big_chunk_of_chunk (to_chunk_coords p) ≢ to_big_chunk_coords p
      → set_block_layer registry load generate w p layer b ≡ some w'
      → (get_chunk load generate w' (to_chunk_coords p)).1
        ≡ (get_chunk load generate w (to_chunk_coords p)).1
  get_chunk_stale w w' p layer b other h =
      let c = to_chunk_coords p in
      elim (beq_cases vec2_eq (to_big_chunk_coords p) (big_chunk_of_chunk c)) [
        | inl (t, e) ↦ absurd (other (sym e))
        | inr f ↦
            get_chunk-at w' c
            ∙ chunk_at-set_block_layer w w' p layer b (big_chunk_of_chunk c) c h f
            ∙ sym (get_chunk-at w c)
      ]
