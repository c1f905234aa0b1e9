-- ===== src/Examples/Games.antt =====
-- A game with a player, a pig, an item and a stone floor.
use mmo_game.Prelude.{
  ℕ, pos, ◌-ℤ◌, wrap, String, Bool, true, false, Option, none, some, List, [], ◌∷◌, ◌≡◌, ◌≢◌, refl,
  ◌==◌, nat_eq, string_eq, lookup, insert, delete, if◌then◌else◌,
}
use mmo_game.Prelude.Outcome.{done}
use mmo_game.Vec.{Vec2}
use mmo_game.Block.Dispatch.{initial_registry}
use mmo_game.Chunk.{Chunk, new_chunk}
use mmo_game.Events.{Entities, Event}
use mmo_game.World.{new_world_manager}
use mmo_game.World.View.{view}
use mmo_game.Users.Authenticator.{AuthResult}
use mmo_game.Entity.{
  Entity, new_entity, player_type, npc_type, item_type, animal_type, int, float, string, fetch, put,
}
use mmo_game.Entity.Animal.{new_animal_behavior, pig}
use mmo_game.Entity.Behavior.{animal}
use mmo_game.Entity.Manager.{
  EntityManager, get_entity, get_behavior, new_entity_manager, register_default_behaviors,
}
use mmo_game.Game.{Game, Session, Sent, tick}
use mmo_game.Game.Actions.{
  ActionRequest, Reply, attack, pickup, build_place, handle_attack, further,
}
use mmo_game.Game.Items.{placed_id, handle_build_place, handle_build_break}
use mmo_game.Game.Moves.{MoveEntry, handle_entity_move}
use mmo_game.Game.Sessions.{handle_auth, on_client_disconnect}
use mmo_game.Game.Ownership.{OnlyMoves, handle_entity_move-OnlyMoves}
use mmo_game.Game.Sight.{seen, put_in_air, dig, build-refines}
use mmo_game.Game.Fights.{IsStruck, handle_attack-IsStruck}
use mmo_game.Game.Return.{comes_back}
use mmo_game.Game.Pairing.{IsPaired, comes, goes, visits, visits-IsPaired}
use mmo_game.Game.Loot.{pickups, copies, taken, pickup_again}
use mmo_game.Game.Ticks.{idle_npc-stops_tick}
use mmo_game.Examples.Entities.{ops, draws, format_uint, spot, started}

abbrev generate : Vec2 → Chunk ℕ
generate c = record (new_chunk c) { blocks = λ k. if k.layer == 0 then 1 else 0 }

abbrev load : Vec2 → Entities ℕ → Entities ℕ
load k entities = entities

abbrev marshals : Event ℕ → Bool
marshals e = true

abbrev near : Vec2
near = record { x = pos 4; y = pos 4 }

abbrev hero : Entity ℕ
hero = new_entity ops 1 player_type spot

abbrev hurt_pig : Entity ℕ
hurt_pig = put "health" (int (pos 30)) (new_entity ops 2 animal_type spot)

abbrev apple : Entity ℕ
apple = new_entity ops 3 item_type spot

abbrev guard : Entity ℕ
guard = put "actionTimer" (float 5) (put "state" (string "idle") (new_entity ops 4 npc_type spot))

abbrev manager : EntityManager ℕ
manager = record started {
  entities = (1, hero) ∷ (2, hurt_pig) ∷ (3, apple) ∷ (4, guard) ∷ [];
  next_entity_id = 5;
}

abbrev session : Session
session = record { user_id = 9; entity_id = 1; username = "bob"; token = "t"; is_admin = false }

abbrev game : Game ℕ
game = record {
  world = new_world_manager 0;
  manager = manager;
  player_entities = ("a", 1) ∷ [];
  sessions = ("a", session) ∷ [];
  last_entity_id = 4;
  position_repo = some [];
}

abbrev entries : List MoveEntry
entries = record { id = 1; position = some near } ∷ record { id = 2; position = some near } ∷ []

handle_entity_move-OnlyMoves_example :
    (g' : Game ℕ) × (sent : List Sent) × (handle_entity_move ops initial_registry load generate
        marshals game "a"
        (some entries)
      ≡ done (g', sent))
    × OnlyMoves ops initial_registry load generate marshals 1 hero game g'
unfolding get_entity lookup new_entity
handle_entity_move-OnlyMoves_example =
    handle_entity_move-OnlyMoves ops initial_registry load generate marshals game "a" 1 hero entries
      refl refl refl ((near, refl), ((near, refl), tt))

abbrev request : ActionRequest
request = record {
  action_type = build_place;
  target_id = some 2;
  position = some near;
  item_id = some 1;
}

build-refines_example :
    (seen initial_registry load generate
        (handle_build_place ops initial_registry load generate game hero request)
      ≡ (if further ops spot near 5
          then done (view generate game.world, false)
          else put_in_air initial_registry (view generate game.world) near (placed_id (some 1))))
    × (seen initial_registry load generate (
          handle_build_break ops initial_registry load generate format_uint draws game hero request)
        ≡ (if further ops spot near 5
            then done (view generate game.world, false)
            else dig initial_registry (view generate game.world) near))
unfolding new_entity
build-refines_example =
    build-refines ops initial_registry load generate format_uint draws game hero request near refl

abbrev blow : ActionRequest
blow = record { action_type = attack; target_id = some 2; position = none; item_id = none }

handle_attack-IsStruck_example :
    (g' : Game ℕ) × (r : Reply) × (handle_attack ops draws game hero blow ≡ done (g', r, []))
    × IsStruck game 2 (pos 30) g' r
unfolding get_entity get_behavior register_default_behaviors lookup insert new_entity put fetch
    further wrap ◌-ℤ◌
handle_attack-IsStruck_example =
    handle_attack-IsStruck ops draws game hero hurt_pig blow 2
      (animal (new_animal_behavior ops pig)) (pos 30) refl refl refl refl refl refl refl

abbrev granted : AuthResult
granted = record {
  success = true;
  user_id = 9;
  username = "bob";
  token = "u";
  message = "Authentication successful";
  roles = "user" ∷ [];
}

abbrev authenticate : String → String → Option AuthResult
authenticate username password = some granted

comes_back_example :
    let g' =
      (handle_auth ops format_uint draws
        (some authenticate)
        (on_client_disconnect game "a").0
        "b"
        (some ("bob", none))).0 in
    (e' : Entity ℕ) × (get_entity g'.manager 5 ≡ some e')
    × (e'.position ≡ spot)
    × (get_entity g'.manager 1 ≡ some hero)
unfolding get_entity lookup delete new_entity
comes_back_example =
    comes_back ops format_uint draws game "a" "b" "bob" none authenticate granted session 1 hero []
      refl refl refl refl refl refl refl refl refl refl refl

abbrev nobody : Game ℕ
nobody = record game { player_entities = []; sessions = [] }

visits-IsPaired_example : IsPaired (
    visits ops format_uint nobody
      (comes draws (some authenticate) "b" (some ("bob", none)) ∷ goes "b" ∷ []))
unfolding lookup
visits-IsPaired_example =
    visits-IsPaired ops format_uint
      (comes draws (some authenticate) "b" (some ("bob", none)) ∷ goes "b" ∷ []) nobody (λ c. refl)

abbrev grab : ActionRequest
grab = record { action_type = pickup; target_id = some 3; position = none; item_id = none }

pickup_again_example :
    (g' : Game ℕ) × (pickups ops 3 game hero grab ≡ done (g', copies 3 (taken apple)))
    × (get_entity g'.manager 3 ≡ some apple)
unfolding get_entity lookup new_entity further wrap ◌-ℤ◌
pickup_again_example = pickup_again ops 3 game hero apple grab 3 refl refl refl refl

idle_npc-stops_tick_example :
    tick initial_registry load generate ops (λ id. draws) game 1 ≢ done game
unfolding get_entity lookup insert new_entity put fetch
idle_npc-stops_tick_example =
    idle_npc-stops_tick ops initial_registry load generate (λ id. draws) game game 1 5
      new_entity_manager 4 guard refl refl refl refl refl refl
