-- ===== src/Examples/Entities.antt =====
-- Entities with numbers in place of floats, in a world that is all air.
use Prim.Native.Nat.{◌-◌, ◌*◌}
use mmo_game.Prelude.{
  ℕ, ◌+◌, leb, ltb, List, false, ℤ, pos, negsuc, String, true, none, some, [], ◌∷◌, ◌≡◌, ◌≢◌, refl,
  ◌==◌, nat_eq, string_eq, lookup, insert, length, arith,
}
use mmo_game.Prelude.Outcome.{Outcome, done}
use mmo_game.Vec.{Vec2}
use mmo_game.Vec.Float.{FloatOps}
use mmo_game.Entity.{
  Entity, EntityApi, Draws, int, float, string, fetch, put, new_entity, animal_type, npc_type,
  player_type, item_type,
}
use mmo_game.Entity.Payload.{SamePlace}
use mmo_game.Entity.Animal.{new_animal_behavior, pig, cow}
use mmo_game.Entity.Animal.Cow.Keeps.{Serves}
use mmo_game.Entity.Animal.Life.{on_spawn}
use mmo_game.Entity.Animal.Life.Keeps.{ticks, is_hurt, collides, live, live_returns}
use mmo_game.Entity.Animal.Stall.{run, state_name, after, overdue-stalls}
use mmo_game.Entity.Behavior.{player, animal}
use mmo_game.Entity.Manager.{
  EntityManager, new_entity_manager, register_default_behaviors, get_entity, get_behavior,
  spawn_entity, spawn_animal, update_entities, register_behavior,
}
use mmo_game.Block.Dispatch.{initial_registry}
use mmo_game.Entity.Player.{new_player_behavior}
use mmo_game.Entity.Manager.Movement.{process_movement, check_collision, hits_block}
use mmo_game.Entity.Manager.Ids.{
  Call, registers, spawn, animal as animal_call, updates, walks, call, calls, spawn_entity-fresh,
}
use mmo_game.Entity.Manager.Clash.{spawn_animal-overwrites}
use mmo_game.Entity.Manager.Bare.{spawn_animal-Fails}

abbrev whole : ℤ → ℕ
whole (pos n) = n
whole (negsuc n) = 0

abbrev pub ops : FloatOps ℕ
ops = record {
  plus = λ a b. a + b;
  minus = λ a b. a - b;
  times = λ a b. a * b;
  over = λ a b. a;
  negate = λ a. a;
  sqrt = λ a. a;
  abs = λ a. a;
  cos = λ a. a;
  sin = λ a. a;
  less = ltb;
  at_most = leb;
  equal = λ a b. a == b;
  of_int = whole;
  to_int = λ n. pos n;
  lit = λ m k. m;
  pi = 3;
}

abbrev pub draws : Draws ℕ
draws = record { first_timer = 1; timer = 1; angle = 1; distance = 1; offer = 1; now = pos 0 }

abbrev pub format_uint : ℕ → String
format_uint n = "1"

abbrev pub spot : Vec2
spot = record { x = pos 3; y = pos 4 }

-- The world's state counts the writes.
abbrev api : EntityApi ℕ ℕ
api = record {
  get_block = λ w p. done (w, 0);
  set_block = λ w p id. done (w + 1);
  get_block_metadata = λ w p key. done (w, none);
  set_block_metadata = λ w p key value. done (w + 1);
  get_entities_in_range = λ w center radius. done (w, []);
  send_message = λ w id message_type. done w;
}

abbrev serves : Serves api
serves = record {
  block_read = λ w p. ((w, 0), refl);
  block_set = λ w p id. (w + 1, refl);
  metadata_read = λ w p key. ((w, none), refl);
  metadata_set = λ w p key value. (w + 1, refl);
}

abbrev newborn : Entity ℕ
newborn = new_entity ops 7 animal_type spot

live_returns_example :
    (w' : ℕ) × (e' : Entity ℕ) × (live ops api
        (new_animal_behavior ops cow)
        (ticks draws 1 ∷ is_hurt draws (pos 10) none ∷ collides draws ∷ ticks draws 5 ∷ [])
        0
        (on_spawn ops (new_animal_behavior ops cow) draws newborn)
      ≡ done (w', e'))
unfolding fetch new_entity lookup
live_returns_example =
    live_returns ops api serves (new_animal_behavior ops cow) draws newborn
      (ticks draws 1 ∷ is_hurt draws (pos 10) none ∷ collides draws ∷ ticks draws 5 ∷ []) 0 refl

abbrev grown_pig : Entity ℕ
grown_pig = put "actionTimer" (float 1) (
    put "state" (string "idle")
      (put "hunger" (int (pos 0)) (put "animalType" (int (pos 3)) newborn)))

overdue-stalls_example :
    (e' : Entity ℕ) × (run ops api (new_animal_behavior ops pig) 1 (λ n. draws) 5 0 grown_pig
      ≡ done (0, e'))
    × (fetch "state" e' ≡ some (string (state_name (after 5 true))))
    × SamePlace grown_pig e'
unfolding fetch put new_entity lookup insert new_animal_behavior
overdue-stalls_example =
    overdue-stalls ops api (new_animal_behavior ops pig) 1 (λ n. draws) 5 true (pos 0) 1
      (int (pos 3)) 0 grown_pig refl
      (record {
        is_animal = refl;
        has_hunger = refl;
        in_state = refl;
        has_timer = refl;
        time_is_up = refl;
      })

abbrev pub started : EntityManager ℕ
started = register_default_behaviors ops new_entity_manager

-- A player who walks among animals, of which one is there when the world is updated.
abbrev busy : List (Call ℕ)
busy =
    registers player_type (player (new_player_behavior ops))
    ∷ registers animal_type (animal (new_animal_behavior ops pig))
    ∷ spawn draws player_type spot
    ∷ walks draws 2 (record { up = false; down = true; left = false; right = true }) 1
    ∷ updates (λ id. draws) 1
    ∷ animal_call draws pig spot
    ∷ []

abbrev got : Outcome (ℕ × EntityManager ℕ) → EntityManager ℕ
got (done (w, em)) = em
got _ = new_entity_manager

abbrev later : EntityManager ℕ
later = got (calls ops api initial_registry format_uint 0 new_entity_manager busy)

spawn_entity-fresh_example :
    (get_entity later (spawn_entity ops format_uint draws later animal_type spot).1 ≡ none)
    × (e : Entity ℕ) × (get_entity
          (spawn_entity ops format_uint draws later animal_type spot).0
          (spawn_entity ops format_uint draws later animal_type spot).1
        ≡ some e)
    × (e.entity_type ≡ animal_type)
    × (e.position ≡ spot)
unfolding calls call register_behavior lookup insert update_entities spawn_animal process_movement
    new_entity check_collision hits_block initial_registry spawn_entity
    mmo_game.Entity.Behavior.on_spawn mmo_game.Entity.Player.on_spawn mmo_game.Block.get
    mmo_game.Entity.Behavior.update
spawn_entity-fresh_example =
    spawn_entity-fresh ops api initial_registry format_uint busy 0 0 later draws animal_type spot
      (omega arith) (tt, (tt, (tt, (tt, (tt, (tt, tt)))))) refl

spawn_animal-overwrites_example :
    let r = spawn_entity ops format_uint draws started npc_type spot in
    (em' : EntityManager ℕ) × (spawn_animal ops format_uint draws r.0 cow spot ≡ done (em', r.1))
    × (e : Entity ℕ) × (get_entity em' r.1 ≡ some e)
    × (e.entity_type ≡ animal_type)
    × (e.position ≡ spot)
    × (length em'.entities ≡ length (r.0).entities)
unfolding get_behavior register_default_behaviors lookup insert
spawn_animal-overwrites_example =
    spawn_animal-overwrites ops format_uint started draws draws npc_type cow spot spot
      (animal (new_animal_behavior ops pig)) refl

spawn_animal-Fails_example :
    (em' : EntityManager ℕ) × (spawn_animal ops format_uint draws started cow spot ≡ done (em', 1))
    × (update_entities ops api (λ id. draws) 0 em' 1 ≢ done (0, started))
unfolding register_default_behaviors
spawn_animal-Fails_example =
    spawn_animal-Fails ops api format_uint started new_entity_manager draws (λ id. draws) cow spot 0
      1 (0, started) refl
