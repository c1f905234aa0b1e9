-- ===== src/Vec/Grid.antt =====
-- The grid of chunks: how a block's coordinates split into a chunk's and those inside it.
use mmo_game.Prelude.{
  ◌≡◌, ap, sym, ◌∙◌, ℤ, pos, negsuc, ◌+ℤ◌, ◌*ℤ◌, ◌≤ℤ◌, ◌<ℤ◌, shr, low_bits, arith,
}
use mmo_game.Vec.{Vec2, to_chunk_coords, to_big_chunk_coords, local_in_chunk}

-- One axis: a coordinate is 16 times its chunk's, and what is left lies in 0..15.
axis_split : (a : ℤ) → (pos 16 *ℤ shr a 4) +ℤ low_bits a 4 ≡ a
unfolding ◌+ℤ◌ ◌*ℤ◌
axis_split (pos n) = ground arith
axis_split (negsuc n) = ground arith

axis_local : (a : ℤ) → (pos 0 ≤ℤ low_bits a 4) × (low_bits a 4 <ℤ pos 16)
axis_local (pos n) = omega arith
axis_local (negsuc n) = omega arith

axis_unique :
    (c l : ℤ)
    → pos 0 ≤ℤ l
    → l <ℤ pos 16
    → (shr ((pos 16 *ℤ c) +ℤ l) 4 ≡ c) × (low_bits ((pos 16 *ℤ c) +ℤ l) 4 ≡ l)
unfolding ◌+ℤ◌ ◌*ℤ◌
axis_unique (pos c) (pos l) h k = ground arith
axis_unique (negsuc c) (pos l) h k = ground arith
axis_unique c (negsuc l) h k = absurd (omega arith)

axis_big : (a : ℤ) → shr (shr a 4) 5 ≡ shr a 9
axis_big (pos n) = ground arith
axis_big (negsuc n) = ground arith

-- The block that local coordinates name inside a chunk.
abbrev pub from_chunk : Vec2 → Vec2 → Vec2
from_chunk c l = record { x = (pos 16 *ℤ c.x) +ℤ l.x; y = (pos 16 *ℤ c.y) +ℤ l.y }

abbrev pub IsLocal : Vec2 → Type 0
IsLocal l = (pos 0 ≤ℤ l.x) × (l.x <ℤ pos 16) × (pos 0 ≤ℤ l.y) × (l.y <ℤ pos 16)

pub local_in_chunk-IsLocal : (v : Vec2) → IsLocal (local_in_chunk v)
unfolding local_in_chunk
local_in_chunk-IsLocal v =
    ((axis_local v.x).0, (axis_local v.x).1, (axis_local v.y).0, (axis_local v.y).1)

-- A block's chunk and its local coordinates, which lie in 0..15, name the block again.
pub from_chunk-split :
    (v : Vec2)
    → IsLocal (local_in_chunk v) × (from_chunk (to_chunk_coords v) (local_in_chunk v) ≡ v)
unfolding to_chunk_coords local_in_chunk
from_chunk-split v =
    (local_in_chunk-IsLocal v, λ i. record { x = axis_split v.x i; y = axis_split v.y i })

-- A block at local coordinates in 0..15 of a chunk is split into that chunk and those coordinates.
pub split-from_chunk :
    (c l : Vec2)
    → IsLocal l
    → (to_chunk_coords (from_chunk c l) ≡ c) × (local_in_chunk (from_chunk c l) ≡ l)
unfolding to_chunk_coords local_in_chunk
split-from_chunk c l (a, b, d, e) =
    let ux = axis_unique c.x l.x a b in
    let uy = axis_unique c.y l.y d e in
    (λ i. record { x = ux.0 i; y = uy.0 i }, λ i. record { x = ux.1 i; y = uy.1 i })

axis_big_chunk : (a b : ℤ) → shr a 4 ≡ shr b 4 → shr a 9 ≡ shr b 9
axis_big_chunk a b e = sym (axis_big a) ∙ ap (λ (c : ℤ). shr c 5) e ∙ axis_big b

-- Two blocks of one chunk lie in one BigChunk.
pub to_big_chunk_coords-chunk :
    (v w : Vec2)
    → to_chunk_coords v ≡ to_chunk_coords w
    → to_big_chunk_coords v ≡ to_big_chunk_coords w
unfolding to_chunk_coords to_big_chunk_coords
to_big_chunk_coords-chunk v w e = λ i. record {
  x = axis_big_chunk v.x w.x (ap (λ (u : Vec2). u.x) e) i;
  y = axis_big_chunk v.y w.y (ap (λ (u : Vec2). u.y) e) i;
}
