-- ===== src/Entity/Manager/Movement.antt =====
-- ProcessMovement and the collisions of internal/world/entity/manager.go. An entity stands in the
-- manager's map under its own id. The block interface is asked for the corners of the hitbox.
use mmo_game.Prelude.{
  ℕ, Bool, true, false, not, ◌&&◌, ◌||◌, Option, none, some, List, [], ◌∷◌, if◌then◌else◌, ◌==◌,
  nat_eq, lookup,
}
use mmo_game.Prelude.Outcome.{Outcome, done, ◌>>=◌}
use mmo_game.Vec.Float.{FloatOps, Vec2Float, to_vec2, add, mul, normalized}
use mmo_game.Block.{Registry}
use mmo_game.Block.Dispatch.{is_passable_block}
use mmo_game.Entity.{Entity, EntityApi, Draws, MovementDirection}
use mmo_game.Entity.Steering.{calculate_direction}
use mmo_game.Entity.Behavior.{EntityBehavior, on_collision, get_move_speed}
use mmo_game.Entity.Manager.{EntityManager, get_entity, get_behavior, write_entity}

module _ {F : Type 0} (ops : FloatOps F) where
  abbrev pub half : F → F
  half a = ops.over a (ops.lit 2 0)

  unfoldable pub entities_collide : Vec2Float F → Vec2Float F → Vec2Float F → Vec2Float F → Bool
  entities_collide pos1 size1 pos2 size2 =
      ops.less (ops.minus pos1.x (half size1.x)) (ops.plus pos2.x (half size2.x))
      && ops.less (ops.minus pos2.x (half size2.x)) (ops.plus pos1.x (half size1.x))
      && ops.less (ops.minus pos1.y (half size1.y)) (ops.plus pos2.y (half size2.y))
      && ops.less (ops.minus pos2.y (half size2.y)) (ops.plus pos1.y (half size1.y))

  -- The four corners of the hitbox at a position.
  unfoldable pub corners : Vec2Float F → Vec2Float F → List (Vec2Float F)
  corners size p =
      let left = ops.minus p.x (half size.x) in
      let right = ops.plus p.x (half size.x) in
      let top = ops.minus p.y (half size.y) in
      let bottom = ops.plus p.y (half size.y) in
      record { x = left; y = top }
      ∷ record { x = right; y = top }
      ∷ record { x = left; y = bottom }
      ∷ record { x = right; y = bottom }
      ∷ []

  abbrev pub bumped : Option (EntityBehavior F) → Draws F → Entity F → Entity F
  unfolding on_collision
  bumped none draws e = e
  bumped (some b) draws e = on_collision ops b draws e

  -- The first other active entity whose hitbox meets the one at the new position.
  unfoldable pub meets_other : Entity F → Vec2Float F → List (ℕ × Entity F) → Bool
  unfolding entities_collide
  meets_other e p [] = false
  meets_other e p ((id, other) ∷ others) =
      let rest = meets_other e p others in
      if other.id == e.id || not other.active
      then rest
      else (if entities_collide p e.size other.precise_pos other.size then true else rest)

  abbrev pub nudged : Bool → (F → F → F) → F → F
  nudged true op a = op a (ops.lit 1 0)
  nudged false op a = a

  unfoldable pub move_direction : MovementDirection → Vec2Float F
  move_direction d = record {
    x = nudged d.right ops.plus (nudged d.left ops.minus (ops.lit 0 0));
    y = nudged d.down ops.plus (nudged d.up ops.minus (ops.lit 0 0));
  }

  abbrev pub moves : Vec2Float F → Bool
  moves d = not (ops.equal d.x (ops.lit 0 0)) || not (ops.equal d.y (ops.lit 0 0))

  unfoldable pub turned : Vec2Float F → Entity F → Entity F
  unfolding calculate_direction
  turned d e = if moves d then record e { direction = calculate_direction ops d } else e

  abbrev pub unit_step : Vec2Float F → Vec2Float F
  unfolding normalized
  unit_step d = if moves d then normalized ops d else d

  -- Only the axes without a collision are changed.
  unfoldable pub settle : Entity F → Vec2Float F → Vec2Float F → Bool → Bool → Entity F
  unfolding to_vec2
  settle e p v x_blocked y_blocked =
      let to : Vec2Float F = record {
        x = if x_blocked then e.precise_pos.x else p.x;
        y = if y_blocked then e.precise_pos.y else p.y;
      } in
      record e {
        precise_pos = to;
        position = to_vec2 ops to;
        velocity = record {
          x = if x_blocked then ops.lit 0 0 else v.x;
          y = if y_blocked then ops.lit 0 0 else v.y;
        };
      }

module _ {F W : Type 0} (ops : FloatOps F) (api : EntityApi F W) (registry : Registry) where
  -- Whether one of the corners lies in a block that cannot be passed.
  unfoldable pub hits_block : W → List (Vec2Float F) → Outcome (W × Bool)
  unfolding to_vec2 is_passable_block
  hits_block w [] = done (w, false)
  hits_block w (corner ∷ rest) = api.get_block w (to_vec2 ops corner) >>= λ (w', id).
      (let next : Outcome (W × Bool) = hits_block w' rest in
        if is_passable_block registry id then next else done (w', true))

  unfoldable pub check_collision :
      Draws F → EntityManager F → W → Entity F → Vec2Float F → Outcome (W × Entity F × Bool)
  unfolding hits_block corners meets_other get_behavior
  check_collision draws em w e p = hits_block w (corners ops e.size p) >>= λ (w', hit).
      (if hit || meets_other ops e p em.entities
        then done (w', bumped ops (get_behavior em e.entity_type) draws e, true)
        else done (w', e, false))

  -- The second look into the map, by the entity's id: only an entry that is there is changed.
  unfoldable pub write_found : EntityManager F → Entity F → Option (Entity F) → EntityManager F
  unfolding write_entity
  write_found em e none = em
  write_found em e (some _) = write_entity em e

  -- The two axes are tried one after the other.
  unfoldable pub walk :
      Draws F
      → EntityManager F
      → W
      → Entity F
      → Vec2Float F
      → Vec2Float F
      → Outcome (W × EntityManager F × Bool)
  unfolding check_collision settle write_found
  walk draws em w e p v =
      check_collision draws em w e (record { x = p.x; y = e.precise_pos.y })
      >>= λ (w', e', x_blocked).
          (check_collision draws em w' e' (record { x = e.precise_pos.x; y = p.y })
            >>= λ (w'', e'', y_blocked). done (
              w'',
              write_found em (settle ops e'' p v x_blocked y_blocked) (lookup e''.id em.entities),
              not x_blocked || not y_blocked,
            ))

  unfoldable pub moved :
      Draws F
      → EntityManager F
      → W
      → MovementDirection
      → F
      → Entity F
      → Option (EntityBehavior F)
      → Outcome (W × EntityManager F × Bool)
  unfolding walk turned move_direction add mul
  moved draws em w direction dt e none = done (w, em, false)
  moved draws em w direction dt e (some b) =
      let d = move_direction ops direction in
      let v = mul ops (unit_step ops d) (get_move_speed b) in
      walk draws em w (turned ops d e) (add ops e.precise_pos (mul ops v dt)) v

  unfoldable pub found :
      Draws F
      → EntityManager F
      → W
      → MovementDirection
      → F
      → Option (Entity F)
      → Outcome (W × EntityManager F × Bool)
  unfolding moved get_behavior
  found draws em w direction dt none = done (w, em, false)
  found draws em w direction dt (some e) =
      if e.active
      then moved draws em w direction dt e (get_behavior em e.entity_type)
      else done (w, em, false)

  unfoldable pub process_movement :
      Draws F
      → EntityManager F
      → W
      → ℕ
      → MovementDirection
      → F
      → Outcome (W × EntityManager F × Bool)
  unfolding found get_entity
  process_movement draws em w id direction dt = found draws em w direction dt (get_entity em id)
