-- ===== src/Entity/Npc.antt =====
-- NPCs: internal/world/entity/npc.go. A method returns the entity as it leaves it, and the state
-- of the world where it calls the world. The list that GetEntitiesInRange returns has the other
-- entities as they were before the call.
pub mod Life
pub mod Watch
use mmo_game.Prelude.{
  ℕ, ℤ, pos, String, Option, none, some, List, [], ◌∷◌, if◌then◌else◌, ◌==◌, nat_eq, string_eq,
}
use mmo_game.Prelude.Outcome.{Outcome, done, ◌>>=◌}
use mmo_game.Vec.{Vec2}
use mmo_game.Vec.Float.{FloatOps}
use mmo_game.Entity.{
  Entity, EntityApi, Draws, Datum, int64, uint64, float, string, point, fetch, put, as_point,
  player_type,
}
use mmo_game.Entity.Steering.{random_in_range, random_position_in_radius}

pub record NpcBehavior (F : Type 0) : Type 0 where
  pub base_speed : F
  pub max_health : ℤ
  pub detection_radius : F
  pub wander_radius : F
  pub idle_time_range : F × F
  pub move_time_range : F × F
  pub npc_type : String

module _ {F : Type 0} (ops : FloatOps F) where
  -- The switch over the types.
  fitted : NpcBehavior F → NpcBehavior F
  fitted nb =
      if nb.npc_type == "villager"
      then record nb { base_speed = ops.lit 2 0; wander_radius = ops.lit 8 0 }
      else (if nb.npc_type == "trader"
          then record nb {
            base_speed = ops.lit 15 1;
            wander_radius = ops.lit 3 0;
            idle_time_range = (ops.lit 3 0, ops.lit 10 0);
          }
          else (if nb.npc_type == "guard"
              then record nb {
                base_speed = ops.lit 4 0;
                detection_radius = ops.lit 12 0;
                wander_radius = ops.lit 15 0;
              }
              else nb))

  unfoldable pub new_npc_behavior : String → NpcBehavior F
  unfolding fitted
  new_npc_behavior npc_type = fitted (record {
    base_speed = ops.lit 3 0;
    max_health = pos 50;
    detection_radius = ops.lit 8 0;
    wander_radius = ops.lit 10 0;
    idle_time_range = (ops.lit 1 0, ops.lit 5 0);
    move_time_range = (ops.lit 1 0, ops.lit 3 0);
    npc_type = npc_type;
  })

-- The first player of a list of entities.
unfoldable pub find_player : {F : Type 0} → List (Entity F) → Option ℕ
find_player [] = none
find_player (e ∷ es) =
    let rest = find_player es in if e.entity_type == player_type then some e.id else rest

unfoldable pub find_id : {F : Type 0} → ℕ → List (Entity F) → Option (Entity F)
find_id id [] = none
find_id id (e ∷ es) = let rest = find_id id es in if e.id == id then some e else rest

module _ {F : Type 0} (ops : FloatOps F) (nb : NpcBehavior F) (draws : Draws F) where
  abbrev pub idle_timer : F
  unfolding random_in_range
  idle_timer = random_in_range ops draws.timer nb.idle_time_range

  unfoldable pub started : Option (Datum F) → Entity F → Entity F
  unfolding put
  started (some _) e = e
  started none e = put "randomSeed" (int64 draws.now) (
      put "targetPosition" (point e.position) (
        put "homePosition" (point e.position)
          (put "state" (string "idle") (put "actionTimer" (float (ops.lit 0 0)) e))))

  unfoldable pub rest_again : Entity F → Entity F
  unfolding put
  rest_again e = put "actionTimer" (float idle_timer) (put "state" (string "idle") e)

  abbrev pub follow : ℕ → Entity F → Entity F
  follow id e = put "actionTimer" (float (ops.lit 5 1)) (put "targetEntityID" (uint64 id) e)

  -- "following", when the time is up: the first player in range is the new target.
  retarget : Option ℕ → Entity F → Entity F
  unfolding put rest_again
  retarget none e = rest_again e
  retarget (some id) e = follow id e

  homed : Option Vec2 → Entity F → Entity F × Vec2
  unfolding put
  homed (some home) e = (e, home)
  homed none e = (put "homePosition" (point e.position) e, e.position)

  set_out : Entity F × Vec2 → Entity F
  unfolding put random_position_in_radius
  set_out (e, home) =
      put "targetPosition"
        (point (random_position_in_radius ops draws.angle draws.distance home nb.wander_radius)) e

  abbrev to_move : Entity F → Entity F
  unfolding random_in_range put
  to_move e =
      put "actionTimer" (float (random_in_range ops draws.timer nb.move_time_range))
        (put "state" (string "moving") e)

module _ {F W : Type 0} (ops : FloatOps F) (api : EntityApi F W) (nb : NpcBehavior F)
    (draws : Draws F) where
  -- The time of the action has run out.
  unfoldable pub end_action : W → Entity F → String → Outcome (W × Entity F)
  unfolding to_move set_out homed rest_again retarget find_player fetch
  end_action w e state =
      if state == "idle"
      then done (
        w,
        set_out ops nb draws (
            homed ops nb draws (as_point (fetch "homePosition" (to_move ops nb draws e)))
              (to_move ops nb draws e)),
      )
      else (if state == "moving"
          then done (w, rest_again ops nb draws e)
          else (if state == "following"
              then (api.get_entities_in_range w e.position nb.detection_radius >>= λ (w', others).
                  done (w', retarget ops nb draws (find_player others) e))
              else done (w, e)))
