-- ===== src/Vec/Float.antt =====
-- Vectors of float64: internal/vec/vec2_float.go, and the distance in vec2.go. A float64 is any
-- type F with the operations of the language and of the package math; `lit m k` is the constant
-- m / 10^k. What a theorem needs of them it names.
use mmo_game.Prelude.{ℕ, ℤ, ◌-ℤ◌, wrap, Bool, if◌then◌else◌}
use mmo_game.Vec.{Vec2}

pub record FloatOps (F : Type 0) : Type 0 where
  pub plus : F → F → F
  pub minus : F → F → F
  pub times : F → F → F
  pub over : F → F → F
  pub negate : F → F
  pub sqrt : F → F
  pub abs : F → F
  pub cos : F → F
  pub sin : F → F
  pub less : F → F → Bool
  pub at_most : F → F → Bool
  pub equal : F → F → Bool
  pub of_int : ℤ → F
  pub to_int : F → ℤ
  pub lit : ℕ → ℕ → F
  pub pi : F

pub record Vec2Float (F : Type 0) : Type 0 where
  pub x : F
  pub y : F

module _ {F : Type 0} (ops : FloatOps F) where
  unfoldable pub to_vec2 : Vec2Float F → Vec2
  to_vec2 v = record { x = ops.to_int v.x; y = ops.to_int v.y }

  unfoldable pub from_vec2 : Vec2 → Vec2Float F
  from_vec2 v = record { x = ops.of_int v.x; y = ops.of_int v.y }

  unfoldable pub add : Vec2Float F → Vec2Float F → Vec2Float F
  add v other = record { x = ops.plus v.x other.x; y = ops.plus v.y other.y }

  unfoldable pub sub : Vec2Float F → Vec2Float F → Vec2Float F
  sub v other = record { x = ops.minus v.x other.x; y = ops.minus v.y other.y }

  unfoldable pub mul : Vec2Float F → F → Vec2Float F
  mul v scalar = record { x = ops.times v.x scalar; y = ops.times v.y scalar }

  unfoldable pub length : Vec2Float F → F
  length v = ops.sqrt (ops.plus (ops.times v.x v.x) (ops.times v.y v.y))

  abbrev pub zero_vector : Vec2Float F
  zero_vector = record { x = ops.lit 0 0; y = ops.lit 0 0 }

  unfoldable pub normalized : Vec2Float F → Vec2Float F
  unfolding length
  normalized v =
      if ops.equal (length v) (ops.lit 0 0)
      then zero_vector
      else record { x = ops.over v.x (length v); y = ops.over v.y (length v) }

  unfoldable pub distance_to : Vec2Float F → Vec2Float F → F
  unfolding length sub
  distance_to v other = length (sub v other)

  -- The differences of the integers wrap around before they are converted.
  unfoldable pub int_distance : Vec2 → Vec2 → F
  unfolding length
  int_distance v other =
      length
        (record { x = ops.of_int (wrap (v.x -ℤ other.x)); y = ops.of_int (wrap (v.y -ℤ other.y)) })
