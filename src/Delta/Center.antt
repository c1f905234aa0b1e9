-- ===== src/Delta/Center.antt =====
-- The chunk that a subscriber is taken to stand in.
use mmo_game.Prelude.{◌%◌, ◌≡◌, refl, ap, ◌↔◌, ℤ, pos, negsuc, neg_part, shr, quot, arith}
use mmo_game.Vec.{Vec2, to_chunk_coords}
use mmo_game.Delta.{center_chunk}

quot-shr : (a : ℤ) → (quot a 16 ≡ shr a 4) ↔ (neg_part a % 16 ≡ 0)
quot-shr (pos n) = (λ h. refl, λ h. refl)
quot-shr (negsuc n) = ground arith

-- The chunk in which the manager takes a subscriber to stand is that of its block coordinates
-- exactly if neither coordinate is negative and off a multiple of 16.
pub center_chunk_iff :
    (center : Vec2)
    → (center_chunk center ≡ to_chunk_coords center)
      ↔ ((neg_part center.x % 16 ≡ 0) × (neg_part center.y % 16 ≡ 0))
unfolding center_chunk to_chunk_coords
center_chunk_iff center = (
  λ h. ((quot-shr center.x).0 (ap (λ v. v.x) h), (quot-shr center.y).0 (ap (λ v. v.y) h)),
  λ h. rw ((quot-shr center.x).1 h.0, (quot-shr center.y).1 h.1) refl,
)
