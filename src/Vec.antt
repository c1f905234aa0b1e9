-- ===== src/Vec.antt =====
-- Block coordinates: internal/vec/vec2.go and internal/vec/vec3.go. A Go `int` is a ℤ, and sums
-- and differences of coordinates wrap around as they do there.
pub mod Grid
pub mod Float
use mmo_game.Prelude.{
  ℕ, ◌≡◌, refl, ◌↔◌, Bool, true, false, ◌&&◌, ℤ, ◌+ℤ◌, ◌-ℤ◌, ◌*ℤ◌, wrap, shr, low_bits, beq_ℤ,
  EqTest, arith, beq_ℤ_iff,
}

pub record Vec2 : Type 0 where
  pub x : ℤ
  pub y : ℤ

-- `==` on a struct compares the fields.
abbrev pub vec2_beq : Vec2 → Vec2 → Bool
vec2_beq a b = beq_ℤ a.x b.x && beq_ℤ a.y b.y

pub vec2_beq_iff : (a b : Vec2) → (vec2_beq a b ≡ true) ↔ (a ≡ b)
vec2_beq_iff a b = (
  λ h. ground (arith, beq_ℤ_iff a.x b.x, beq_ℤ_iff a.y b.y),
  λ h. ground (arith, beq_ℤ_iff a.x b.x, beq_ℤ_iff a.y b.y),
)

instance abbrev pub vec2_eq : EqTest Vec2
vec2_eq = record { test = vec2_beq; test_iff = vec2_beq_iff }

unfoldable pub to_chunk_coords : Vec2 → Vec2
to_chunk_coords v = record { x = shr v.x 4; y = shr v.y 4 }

unfoldable pub to_big_chunk_coords : Vec2 → Vec2
to_big_chunk_coords v = record { x = shr v.x 9; y = shr v.y 9 }

unfoldable pub local_in_chunk : Vec2 → Vec2
local_in_chunk v = record { x = low_bits v.x 4; y = low_bits v.y 4 }

pub record Vec3 : Type 0 where
  pub x : ℤ
  pub y : ℤ
  pub z : ℤ

unfoldable pub to_vec2 : Vec3 → Vec2
to_vec2 v = record { x = v.x; y = v.y }

unfoldable pub equals : Vec3 → Vec3 → Bool
equals v other = beq_ℤ v.x other.x && beq_ℤ v.y other.y && beq_ℤ v.z other.z

unfoldable pub add : Vec3 → Vec3 → Vec3
add v other = record {
  x = wrap (v.x +ℤ other.x);
  y = wrap (v.y +ℤ other.y);
  z = wrap (v.z +ℤ other.z);
}
