-- ===== src/Examples/Bodies.antt =====
-- Two players and a wall.
use mmo_game.Prelude.{pos, negsuc, true, false, ◌≡◌, refl, ◌↔◌, arith}
use mmo_game.Vec.{Vec2}
use mmo_game.Physics.{BoxCollider, new_box_collider, is_point_inside, check_box_collision}
use mmo_game.Physics.Collision.{thin_never_collide, check_box_collision_iff}

abbrev left : Vec2
left = record { x = negsuc 0; y = pos 3 }

abbrev right : Vec2
right = record { x = pos 1; y = pos 4 }

abbrev wide : BoxCollider
wide = new_box_collider (pos 4) (pos 2)

check_box_collision_iff_example :
    (check_box_collision left wide right wide ≡ true)
    ↔ ((b : Vec2) × (is_point_inside wide left b ≡ true) × (is_point_inside wide right b ≡ true))
check_box_collision_iff_example =
    check_box_collision_iff left right wide wide
      (record {
        x_small = (omega arith, omega arith);
        y_small = (omega arith, omega arith);
        width_small = (omega arith, omega arith);
        height_small = (omega arith, omega arith);
        width_two = omega arith;
        height_two = omega arith;
      })
      (record {
        x_small = (omega arith, omega arith);
        y_small = (omega arith, omega arith);
        width_small = (omega arith, omega arith);
        height_small = (omega arith, omega arith);
        width_two = omega arith;
        height_two = omega arith;
      })

abbrev thin : BoxCollider
thin = new_box_collider (pos 1) (pos 1)

thin_never_collide_example : check_box_collision left thin left thin ≡ false
thin_never_collide_example = thin_never_collide left left thin thin refl refl
