-- ===== src/Physics/Collision.antt =====
-- What the collision tests decide.
use mmo_game.Prelude.{
  ◌≡◌, refl, ◌↔◌, inl, inr, ℤ, pos, negsuc, ◌+ℤ◌, ◌-ℤ◌, ◌≤ℤ◌, ◌<ℤ◌, wrap, quot, Bool, true, false,
  ◌&&◌, List, [], ◌∷◌, All, Bool-cases, arith, IsSmall, wrap-add, wrap-sub, leb_ℤ, ltb_ℤ, int_laws,
}
use mmo_game.Vec.{Vec2}
use mmo_game.Physics.{
  BoxCollider, is_point_inside, check_box_collision, get_collision_points, all_passable,
  can_move_to_position,
}

-- A collision does not depend on which of the two bodies asks.
pub check_box_collision_comm :
    (pos1 pos2 : Vec2) (c1 c2 : BoxCollider)
    → check_box_collision pos1 c1 pos2 c2 ≡ check_box_collision pos2 c2 pos1 c1
unfolding check_box_collision
check_box_collision_comm pos1 pos2 c1 c2 = ground arith

sub_zero : (a : ℤ) → a -ℤ pos 0 ≡ a
unfolding ◌-ℤ◌
sub_zero a = ground arith

add_zero : (a : ℤ) → a +ℤ pos 0 ≡ a
unfolding ◌+ℤ◌
add_zero a = ground arith

-- Two colliders whose halved widths are 0, as those of the 1 by 1 entities are, never collide.
pub thin_never_collide :
    (pos1 pos2 : Vec2) (c1 c2 : BoxCollider)
    → quot c1.width 2 ≡ pos 0
    → quot c2.width 2 ≡ pos 0
    → check_box_collision pos1 c1 pos2 c2 ≡ false
unfolding check_box_collision
thin_never_collide p q c d hc hd =
    rw (hc, hd, sub_zero q.x, add_zero p.x, sub_zero p.x, add_zero q.x) (ground arith)

-- The ends of a collider's interval on one axis.
abbrev low : ℤ → ℤ → ℤ
low p w = wrap (p -ℤ quot w 2)

abbrev high : ℤ → ℤ → ℤ
high p w = wrap (p +ℤ quot w 2)

abbrev Between : ℤ → ℤ → ℤ → Type 0
Between lo b hi = (leb_ℤ lo b ≡ true) × (ltb_ℤ b hi ≡ true)

-- One axis: two non-empty half-open intervals that overlap share a coordinate.
axis_meet :
    (lo1 hi1 lo2 hi2 : ℤ)
    → lo1 <ℤ hi1
    → lo2 <ℤ hi2
    → ltb_ℤ lo2 hi1 ≡ true
    → ltb_ℤ lo1 hi2 ≡ true
    → (b : ℤ) × Between lo1 b hi1 × Between lo2 b hi2
axis_meet lo1 hi1 lo2 hi2 a b c d = elim (Bool-cases (leb_ℤ lo1 lo2)) [
  | inl h ↦ (lo2, ground arith, ground arith)
  | inr h ↦ (lo1, ground arith, ground arith)
]

half_size : (w : ℤ) → pos 2 ≤ℤ w → IsSmall w → (pos 1 ≤ℤ quot w 2) × IsSmall (quot w 2)
half_size (pos n) h k = (omega arith, (omega arith, omega arith))
half_size (negsuc n) h k = absurd (omega arith)

-- The ends of a collider's interval on one axis do not wrap, and leave it non-empty.
axis_ends : (p w : ℤ) → IsSmall p → IsSmall w → pos 2 ≤ℤ w → low p w <ℤ high p w
axis_ends p w sp sw h =
    let half = half_size w h sw in
    rw (wrap-sub p (quot w 2) sp half.1, wrap-add p (quot w 2) sp half.1) (omega int_laws)

pub record IsSolid (p : Vec2) (c : BoxCollider) : Type 0 where
  pub x_small : IsSmall p.x
  pub y_small : IsSmall p.y
  pub width_small : IsSmall c.width
  pub height_small : IsSmall c.height
  pub width_two : pos 2 ≤ℤ c.width
  pub height_two : pos 2 ≤ℤ c.height

and4 :
    (a b c d : Bool) → (a && b && c && d) ≡ true → (a ≡ true) × (b ≡ true) × (c ≡ true) × (d ≡ true)
and4 a b c d h = ground arith

and4_intro :
    (a b c d : Bool) → a ≡ true → b ≡ true → c ≡ true → d ≡ true → (a && b && c && d) ≡ true
and4_intro a b c d h i j k = ground arith

-- A coordinate at or above one end and below the other tells the ends apart.
cross : (lo b hi : ℤ) → leb_ℤ lo b ≡ true → ltb_ℤ b hi ≡ true → ltb_ℤ lo hi ≡ true
cross lo b hi h k = ground arith

-- Two colliders at least 2 wide and 2 high, with coordinates and sizes below 2^62, collide exactly
-- when some block is inside both.
pub check_box_collision_iff :
    (pos1 pos2 : Vec2) (c1 c2 : BoxCollider)
    → IsSolid pos1 c1
    → IsSolid pos2 c2
    → (check_box_collision pos1 c1 pos2 c2 ≡ true)
      ↔ ((b : Vec2) × (is_point_inside c1 pos1 b ≡ true) × (is_point_inside c2 pos2 b ≡ true))
unfolding check_box_collision is_point_inside
check_box_collision_iff p q c d hc hd = (
  λ h.
      let (ax, bx, ay, by) = and4 _ _ _ _ h in
      let mx =
        axis_meet (low p.x c.width) (high p.x c.width) (low q.x d.width) (high q.x d.width)
          (axis_ends p.x c.width hc.x_small hc.width_small hc.width_two)
          (axis_ends q.x d.width hd.x_small hd.width_small hd.width_two) ax bx in
      let my =
        axis_meet (low p.y c.height) (high p.y c.height) (low q.y d.height) (high q.y d.height)
          (axis_ends p.y c.height hc.y_small hc.height_small hc.height_two)
          (axis_ends q.y d.height hd.y_small hd.height_small hd.height_two) ay by in
      (
        record { x = mx.0; y = my.0 },
        and4_intro _ _ _ _ mx.1.0 mx.1.1 my.1.0 my.1.1,
        and4_intro _ _ _ _ mx.2.0 mx.2.1 my.2.0 my.2.1,
      ),
  λ m.
      let (a1, a2, a3, a4) = and4 _ _ _ _ m.1 in
      let (b1, b2, b3, b4) = and4 _ _ _ _ m.2 in
      let b = m.0 in
      and4_intro _ _ _ _ (cross (low q.x d.width) b.x (high p.x c.width) b1 a2)
        (cross (low p.x c.width) b.x (high q.x d.width) a1 b2)
        (cross (low q.y d.height) b.y (high p.y c.height) b3 a4)
        (cross (low p.y c.height) b.y (high q.y d.height) a3 b4),
)

pub all_passable_iff :
    (checker : Vec2 → Bool) (points : List Vec2)
    → (all_passable checker points ≡ true) ↔ All (λ p. checker p ≡ true) points
unfolding all_passable
all_passable_iff checker [] = (λ h. tt, λ h. refl)
all_passable_iff checker (p ∷ ps) = elim (Bool-cases (checker p)) [
  | inl t ↦
      rw t
        (λ h. (refl, (all_passable_iff checker ps).0 h), λ h. (all_passable_iff checker ps).1 h.1)
  | inr t ↦ rw t (λ h. cc, λ h. cc)
]

-- An entity can move exactly when every point that its collider is tested at is passable.
pub can_move_iff :
    (new_pos : Vec2) (collider : BoxCollider) (checker : Vec2 → Bool)
    → (can_move_to_position new_pos collider checker ≡ true)
      ↔ All (λ p. checker p ≡ true) (get_collision_points new_pos collider)
unfolding can_move_to_position
can_move_iff new_pos collider checker =
    all_passable_iff checker (get_collision_points new_pos collider)
