-- ===== src/Entity/Steering.antt =====
-- The helpers that the behaviours of animals and NPCs share word for word: getRandomInRange,
-- getRandomPositionInRadius and calculateDirection of internal/world/entity/animal.go and npc.go;
-- the last stands in manager.go and in internal/network/game_handler_pb.go too.
use mmo_game.Prelude.{ℤ, pos, if◌then◌else◌}
use mmo_game.Vec.{Vec2}
use mmo_game.Vec.Float.{FloatOps, Vec2Float}

module _ {F : Type 0} (ops : FloatOps F) where
  -- `draw` is what rand.Float64 returns.
  unfoldable pub random_in_range : F → F × F → F
  random_in_range draw r = ops.plus r.0 (ops.times draw (ops.minus r.1 r.0))

  unfoldable pub random_position_in_radius : F → F → Vec2 → F → Vec2
  random_position_in_radius angle_draw distance_draw center radius =
      let angle = ops.times (ops.times angle_draw (ops.lit 2 0)) ops.pi in
      let distance = ops.times radius (ops.sqrt distance_draw) in
      record {
        x = ops.to_int (ops.plus (ops.of_int center.x) (ops.times distance (ops.cos angle)));
        y = ops.to_int (ops.plus (ops.of_int center.y) (ops.times distance (ops.sin angle)));
      }

  -- East is 1, west 3, south 0 and north 2.
  unfoldable pub calculate_direction : Vec2Float F → ℤ
  calculate_direction d =
      if ops.less (ops.abs d.y) (ops.abs d.x)
      then (if ops.less (ops.lit 0 0) d.x then pos 1 else pos 3)
      else (if ops.less (ops.lit 0 0) d.y then pos 0 else pos 2)
