-- ===== src/Entity/Animal.antt =====
-- Animals: internal/world/entity/animal.go. A method returns the entity as it leaves it, and the
-- state of the world where it calls the world. The `*actionTimer` that updateBaseState and
-- updateCowState write through is a local variable of Update, which is not read again.
pub mod Cow
pub mod Life
pub mod Stall
pub mod Whole
use mmo_game.Prelude.{ℕ, ℤ, pos, String, Option, none, some, if◌then◌else◌, ◌==◌, nat_eq, string_eq}
use mmo_game.Vec.{Vec2}
use mmo_game.Vec.Float.{FloatOps, from_vec2, sub, mul, normalized, distance_to, zero_vector}
use mmo_game.Entity.{Entity, Draws, Datum, int, int64, float, string, point, fetch, put, as_point}
use mmo_game.Entity.Steering.{random_in_range, random_position_in_radius, calculate_direction}

-- AnimalType is a uint8.
abbrev pub cow : ℕ
cow = 0

abbrev pub sheep : ℕ
sheep = 1

abbrev pub chicken : ℕ
chicken = 2

abbrev pub pig : ℕ
pig = 3

abbrev pub horse : ℕ
horse = 4

pub record AnimalBehavior (F : Type 0) : Type 0 where
  pub base_speed : F
  pub max_health : ℤ
  pub detection_radius : F
  pub wander_radius : F
  pub idle_time_range : F × F
  pub move_time_range : F × F
  pub kind : ℕ
  pub max_hunger : ℤ
  pub hunger_rate : F
  pub eat_duration : F

module _ {F : Type 0} (ops : FloatOps F) where
  base_animal : ℕ → AnimalBehavior F
  base_animal kind = record {
    base_speed = ops.lit 2 0;
    max_health = pos 30;
    detection_radius = ops.lit 6 0;
    wander_radius = ops.lit 10 0;
    idle_time_range = (ops.lit 2 0, ops.lit 7 0);
    move_time_range = (ops.lit 1 0, ops.lit 4 0);
    kind = kind;
    max_hunger = pos 100;
    hunger_rate = ops.lit 5 2;
    eat_duration = ops.lit 3 0;
  }

  -- The switch over the types.
  fitted : AnimalBehavior F → AnimalBehavior F
  fitted ab =
      if ab.kind == cow
      then record ab {
        base_speed = ops.lit 15 1;
        max_health = pos 40;
        max_hunger = pos 150;
        eat_duration = ops.lit 4 0;
      }
      else (if ab.kind == sheep
          then record ab { base_speed = ops.lit 18 1; max_health = pos 25 }
          else (if ab.kind == chicken
              then record ab { base_speed = ops.lit 22 1; max_health = pos 10; max_hunger = pos 50 }
              else (if ab.kind == pig
                  then record ab { base_speed = ops.lit 17 1; max_health = pos 30 }
                  else (if ab.kind == horse
                      then record ab { base_speed = ops.lit 4 0; max_health = pos 60 }
                      else ab))))

  unfoldable pub new_animal_behavior : ℕ → AnimalBehavior F
  unfolding fitted base_animal
  new_animal_behavior kind = fitted (base_animal kind)

module _ {F : Type 0} (ops : FloatOps F) (ab : AnimalBehavior F) (draws : Draws F) where
  abbrev pub idle_timer : F
  unfolding random_in_range
  idle_timer = random_in_range ops draws.timer ab.idle_time_range

  -- The data of an animal, put there unless it has an animalType.
  unfoldable pub fill_animal_data : Entity F → Entity F
  unfolding put random_in_range
  fill_animal_data e = put "randomSeed" (int64 draws.now) (
      put "lastEatTime" (float (ops.lit 0 0)) (
        put "hunger" (int (pos 0)) (
          put "homePosition" (point e.position) (
            put "actionTimer" (float (random_in_range ops draws.first_timer ab.idle_time_range)) (
              put "state" (string "idle")
                (put "health" (int ab.max_health) (put "animalType" (int (pos ab.kind)) e)))))))

  filled_if : Option (Datum F) → Entity F → Entity F
  filled_if none e = fill_animal_data e
  filled_if (some _) e = e

  unfoldable pub init_animal_data : Entity F → Entity F
  unfolding filled_if fetch
  init_animal_data e = filled_if (fetch "animalType" e) e

  -- The home position, which is where the animal stands if it has none yet.
  homed : Option Vec2 → Entity F → Entity F × Vec2
  homed (some home) e = (e, home)
  homed none e = (put "homePosition" (point e.position) e, e.position)

  set_out : Entity F × Vec2 → Entity F
  set_out (e, home) =
      put "targetPosition"
        (point (random_position_in_radius ops draws.angle draws.distance home ab.wander_radius)) e

  -- The entity, and the new value of the action timer.
  unfoldable pub update_base_state : Entity F → String → F → Entity F × F
  unfolding homed set_out put fetch random_in_range
  update_base_state e state timer =
      if state == "idle"
      then (
        let moving = put "state" (string "moving") e in
            set_out (homed (as_point (fetch "homePosition" moving)) moving),
        random_in_range ops draws.timer ab.move_time_range,
      )
      else (if state == "moving" then (put "state" (string "idle") e, idle_timer) else (e, timer))

  arrived : Entity F → Entity F
  arrived e = record (put "actionTimer" (float idle_timer) (put "state" (string "idle") e)) {
    velocity = zero_vector ops;
  }

  -- A step towards a target changes the velocity and the direction.
  unfoldable pub head_for : Entity F → Vec2 → Entity F
  unfolding normalized sub from_vec2 mul calculate_direction
  head_for e target =
      let d = normalized ops (sub ops (from_vec2 ops target) e.precise_pos) in
      record e { velocity = mul ops d ab.base_speed; direction = calculate_direction ops d }

  go_on : Option Vec2 → Entity F → Entity F
  unfolding arrived head_for distance_to from_vec2 put
  go_on none e = e
  go_on (some target) e =
      if ops.less (distance_to ops e.precise_pos (from_vec2 ops target)) (ops.lit 5 1)
      then arrived e
      else head_for e target

  unfoldable pub process_state : Entity F → String → Entity F
  unfolding go_on fetch
  process_state e state =
      if state == "idle"
      then record e { velocity = zero_vector ops }
      else (if state == "moving" then go_on (as_point (fetch "targetPosition" e)) e else e)
