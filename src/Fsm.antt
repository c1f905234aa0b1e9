-- ===== src/Fsm.antt =====
-- The entities of internal/entity/fsm.go, which act by a state machine. A state is a shared
-- object that only its entity holds; Update returns the state that it leaves, and a new one if it
-- makes one. The map Data, which nothing here reads, is left out. CanEntityMoveTo of the interface WorldAPI is a parameter, and so are random draws.
pub mod Steps
pub mod Arrival
use mmo_game.Prelude.{
  ℕ, ℤ, pos, negsuc, ◌+ℤ◌, wrap, ltb_ℤ, String, Bool, true, false, ◌&&◌, ◌||◌, Option, none, some,
  List, [], if◌then◌else◌, ◌==◌, int_eq,
}
use mmo_game.Vec.{Vec2}
use mmo_game.Vec.Float.{FloatOps}
use mmo_game.Physics.{BoxCollider, new_box_collider}

-- IdleState and WanderState.
pub data State (F : Type 0) : Type 0 where
  idle : F → F → State F
  wander : Vec2 → F → F → F → State F

pub record Entity (F : Type 0) : Type 0 where
  pub id : ℕ
  pub entity_type : ℕ
  pub position : Vec2
  pub velocity : Vec2
  pub collider : BoxCollider
  pub current_state : Option (State F)

-- What the random draws of one call return, each from 0 to 1.
pub record Draws (F : Type 0) : Type 0 where
  pub time : F
  pub angle : F
  pub distance : F

abbrev pub origin : Vec2
origin = record { x = pos 0; y = pos 0 }

module _ {F : Type 0} where
  unfoldable pub new_entity : ℕ → ℕ → Vec2 → Entity F
  new_entity id entity_type p = record {
    id = id;
    entity_type = entity_type;
    position = p;
    velocity = origin;
    collider = new_box_collider (pos 1) (pos 1);
    current_state = none;
  }

  -- A new position is taken if the world lets the entity in.
  unfoldable pub move_to : (Entity F → Vec2 → Bool) → Entity F → Vec2 → Entity F × Bool
  move_to can_move e p = if can_move e p then (record e { position = p }, true) else (e, false)

-- One block towards a coordinate, or none.
unfoldable pub toward : ℤ → ℤ → ℤ
toward from to = if ltb_ℤ from to then pos 1 else (if ltb_ℤ to from then negsuc 0 else pos 0)

unfoldable pub next_position : Vec2 → Vec2 → Vec2
unfolding toward
next_position p target = record {
  x = wrap (p.x +ℤ toward p.x target.x);
  y = wrap (p.y +ℤ toward p.y target.y);
}

module _ {F : Type 0} (ops : FloatOps F) (draws : Draws F) where
  between : F → F → F → F
  between least width draw = ops.plus least (ops.times draw width)

  unfoldable pub new_idle_state : State F
  unfolding between
  new_idle_state = idle (ops.lit 0 0) (between (ops.lit 2 0) (ops.lit 3 0) draws.time)

  unfoldable pub new_wander_state : State F
  unfolding between
  new_wander_state =
      wander origin (ops.lit 5 2) (ops.lit 0 0) (between (ops.lit 3 0) (ops.lit 5 0) draws.time)

  -- Enter starts the time again; a wanderer chooses where to go.
  unfoldable pub enter : State F → Entity F → Entity F
  unfolding between
  enter (idle time most) e = record e {
    velocity = origin;
    current_state = some (idle (ops.lit 0 0) most);
  }
  enter (wander target speed time most) e =
      let angle = ops.times (ops.times draws.angle (ops.lit 2 0)) ops.pi in
      let distance = between (ops.lit 2 0) (ops.lit 3 0) draws.distance in
      let goal : Vec2 = record {
        x = wrap (e.position.x +ℤ ops.to_int (ops.times distance (ops.cos angle)));
        y = wrap (e.position.y +ℤ ops.to_int (ops.times distance (ops.sin angle)));
      } in
      record e { current_state = some (wander goal speed (ops.lit 0 0) most) }

module _ {F : Type 0} (ops : FloatOps F) where
  abbrev pub later : F → F
  later time = ops.plus time (ops.over (ops.lit 1 0) (ops.lit 60 0))

abbrev pub at_goal : Vec2 → Vec2 → Bool
at_goal p target = p.x == target.x && p.y == target.y

module _ {F : Type 0} (ops : FloatOps F) (draws : Draws F) (can_move : Entity F → Vec2 → Bool) where
  -- The entity, and the state that follows, if it is another one.
  unfoldable pub stepped : Entity F × Bool → Entity F × Option (State F)
  unfolding new_idle_state
  stepped (e, true) = (e, none)
  stepped (e, false) = (e, some (new_idle_state ops draws))

  unfoldable pub update_state : State F → Entity F → Entity F × Option (State F)
  unfolding stepped new_idle_state new_wander_state move_to next_position
  update_state (idle time most) e = (
    record e { current_state = some (idle (later ops time) most) },
    if ops.at_most most (later ops time) then some (new_wander_state ops draws) else none,
  )
  update_state (wander target speed time most) e =
      let e' : Entity F = record e {
        current_state = some (wander target speed (later ops time) most);
      } in
      if ops.at_most most (later ops time) || at_goal e.position target
      then (e', some (new_idle_state ops draws))
      else stepped (move_to can_move e' (next_position e.position target))

  -- Exit does nothing.
  unfoldable pub changed : Entity F × Option (State F) → Entity F
  unfolding enter
  changed (e, none) = e
  changed (e, some s) = enter ops draws s e

  unfoldable pub update_in : Option (State F) → Entity F → Entity F
  unfolding changed update_state
  update_in none e = e
  update_in (some s) e = changed (update_state s e)

  unfoldable pub update : Entity F → Entity F
  unfolding update_in
  update e = update_in e.current_state e

  unfoldable pub set_state : Option (State F) → Entity F → Entity F
  unfolding enter
  set_state none e = record e { current_state = none }
  set_state (some s) e = enter ops draws s e
