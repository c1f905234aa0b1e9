-- ===== src/Physics.antt =====
-- Box colliders: internal/physics/collision.go.
pub mod Collision
use mmo_game.Prelude.{
  ℤ, pos, ◌+ℤ◌, ◌-ℤ◌, wrap, quot, ltb_ℤ, leb_ℤ, Bool, true, false, ◌&&◌, if◌then◌else◌, List, [],
  ◌∷◌,
}
use mmo_game.Vec.{Vec2}

pub record BoxCollider : Type 0 where
  pub width : ℤ
  pub height : ℤ

abbrev pub new_box_collider : ℤ → ℤ → BoxCollider
new_box_collider width height = record { width = width; height = height }

unfoldable pub is_point_inside : BoxCollider → Vec2 → Vec2 → Bool
is_point_inside bc collider_pos point =
    let half_width = quot bc.width 2 in
    let half_height = quot bc.height 2 in
    leb_ℤ (wrap (collider_pos.x -ℤ half_width)) point.x
    && ltb_ℤ point.x (wrap (collider_pos.x +ℤ half_width))
    && leb_ℤ (wrap (collider_pos.y -ℤ half_height)) point.y
    && ltb_ℤ point.y (wrap (collider_pos.y +ℤ half_height))

unfoldable pub check_box_collision : Vec2 → BoxCollider → Vec2 → BoxCollider → Bool
check_box_collision pos1 collider1 pos2 collider2 =
    let half_width1 = quot collider1.width 2 in
    let half_height1 = quot collider1.height 2 in
    let half_width2 = quot collider2.width 2 in
    let half_height2 = quot collider2.height 2 in
    ltb_ℤ (wrap (pos2.x -ℤ half_width2)) (wrap (pos1.x +ℤ half_width1))
    && ltb_ℤ (wrap (pos1.x -ℤ half_width1)) (wrap (pos2.x +ℤ half_width2))
    && ltb_ℤ (wrap (pos2.y -ℤ half_height2)) (wrap (pos1.y +ℤ half_height1))
    && ltb_ℤ (wrap (pos1.y -ℤ half_height1)) (wrap (pos2.y +ℤ half_height2))

unfoldable pub get_collision_points : Vec2 → BoxCollider → List Vec2
get_collision_points p collider =
    let half_width = quot collider.width 2 in
    let half_height = quot collider.height 2 in
    let left = wrap (p.x -ℤ half_width) in
    let right = wrap (wrap (p.x +ℤ half_width) -ℤ pos 1) in
    let top = wrap (p.y -ℤ half_height) in
    let bottom = wrap (wrap (p.y +ℤ half_height) -ℤ pos 1) in
    if leb_ℤ collider.width (pos 1) && leb_ℤ collider.height (pos 1)
    then p ∷ []
    else record { x = left; y = top }
      ∷ record { x = right; y = top }
      ∷ record { x = left; y = bottom }
      ∷ record { x = right; y = bottom }
      ∷ record { x = p.x; y = p.y }
      ∷ []

-- The loop over the points, with the early return.
unfoldable pub all_passable : (Vec2 → Bool) → List Vec2 → Bool
all_passable block_checker [] = true
all_passable block_checker (point ∷ points) =
    let rest = all_passable block_checker points in if block_checker point then rest else false

unfoldable pub can_move_to_position : Vec2 → BoxCollider → (Vec2 → Bool) → Bool
unfolding all_passable get_collision_points
can_move_to_position new_pos collider block_checker =
    all_passable block_checker (get_collision_points new_pos collider)
