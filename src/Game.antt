-- ===== src/Game.antt =====
-- The handler of the clients' messages: internal/network/game_handler_pb.go, its state, its
-- implementation of EntityAPI and what it does with blocks and entities. Actions, Items, Requests,
-- Moves and Sessions hold the handlers, and the other modules the proofs. What is sent is returned,
-- in order; the transport is left out, and so are the messages that only repeat an entity's fields.
-- A panic of the world is a panic here.
pub mod Actions
pub mod Items
pub mod Requests
pub mod Moves
pub mod Sessions
pub mod Ticks
pub mod Fights
pub mod Sight
pub mod Ownership
pub mod Return
pub mod Pairing
pub mod Loot
use mmo_game.Prelude.{
  ℕ, ◌+◌, ◌%◌, ◌^◌, ℤ, pos, String, Bool, true, false, not, ◌||◌, Option, none, some, List, [], ◌∷◌,
  lookup, insert, if◌then◌else◌, ◌==◌, nat_eq, string_eq,
}
use mmo_game.Prelude.Outcome.{Outcome, blocked, done, asserted, ◌>>=◌}
use mmo_game.Vec.{Vec2, Vec3}
use mmo_game.Vec.Float.{FloatOps}
use mmo_game.Block.{Value, Registry, air_block_id}
use mmo_game.Block.Dispatch.{is_passable_block}
use mmo_game.Chunk.{Chunk, layer_active, layer_floor}
use mmo_game.Events.{Block, new_block, Entities}
use mmo_game.World.{World, get_block, get_block_layer, set_block}
use mmo_game.Positions.{Repo}
use mmo_game.Entity.{Entity, EntityApi, Draws, new_entity}
use mmo_game.Entity.Manager.{
  EntityManager, get_entity, get_behavior, add_entity, write_entity, spawned, update_entities,
}

pub record Session : Type 0 where
  pub user_id : ℕ
  pub entity_id : ℕ
  pub username : String
  pub token : String
  pub is_admin : Bool

pub record Game (F : Type 0) : Type 0 where
  pub world : World F
  pub manager : EntityManager F
  pub player_entities : List (String × ℕ)
  pub sessions : List (String × Session)
  pub last_entity_id : ℕ
  pub position_repo : Option Repo

-- The messages by their type, with what tells them apart.
pub data Message : Type 0 where
  entity_spawn : ℕ → Vec2 → Message
  entity_despawn : ℕ → String → Message
  entity_move : ℕ → Vec2 → Message
  entity_action : Message
  action_response : Bool → String → Message
  auth_response : Bool → String → ℕ → Message
  world_data : ℕ → Message

-- To one client, to all, or to all but one.
pub data Sent : Type 0 where
  to_client : String → Message → Sent
  to_all : Message → Sent
  to_others : String → Message → Sent

module _ {F : Type 0} (registry : Registry) (load : Vec2 → Entities F → Entities F)
    (generate : Vec2 → Chunk F) where
  -- GetBlock and its fellows on the world. A payload that is nil is read like an empty one.
  unfoldable pub read_block : World F → Vec2 → Outcome (World F × Block F)
  unfolding get_block
  read_block w p =
      let found = get_block load generate w p in asserted found.1 >>= λ b. done (found.0, b)

  unfoldable pub write_block : World F → Vec2 → Block F → Outcome (World F)
  unfolding set_block
  write_block w p b = asserted (set_block registry load generate w p b)

  -- The game as its behaviours see it while UpdateEntities runs, which holds the manager's lock:
  -- GetEntitiesInRange takes it again. SendMessage only logs.
  unfoldable pub api_in_update : EntityApi F (World F)
  unfolding read_block write_block
  api_in_update = record {
    get_block = λ w p. read_block w p >>= λ (w', b). done (w', b.id);
    set_block = λ w p id. write_block w p (new_block registry id);
    get_block_metadata = λ w p key. read_block w p >>= λ (w', b). done (w', lookup key b.payload);
    set_block_metadata = λ w p key value. read_block w p >>= λ (w', b).
        write_block w' p (record b { payload = insert key value b.payload });
    get_entities_in_range = λ w center radius. blocked;
    send_message = λ w id message_type. done w;
  }

  -- How Tick begins: the entities are updated.
  unfoldable pub tick : FloatOps F → (ℕ → Draws F) → Game F → F → Outcome (Game F)
  unfolding update_entities api_in_update
  tick ops draws g dt =
      update_entities ops api_in_update draws g.world g.manager dt >>= λ (w', em').
      done (record g { world = w'; manager = em' })

  -- The active layer must be passable, and above air there must be a floor.
  unfoldable pub is_position_walkable : World F → Vec2 → Outcome (World F × Bool)
  unfolding is_passable_block
  is_position_walkable w p =
      let found = get_block_layer load generate w p layer_active in
      asserted found.1 >>= λ b.
      (let below = get_block_layer load generate found.0 p layer_floor in
        let floored : Outcome (World F × Bool) =
          asserted below.1 >>= λ floor. done (below.0, not (floor.id == air_block_id)) in
        if not (is_passable_block registry b.id)
        then done (found.0, false)
        else (if b.id == air_block_id then floored else done (found.0, true)))

module _ {F : Type 0} (ops : FloatOps F) (format_uint : ℕ → String) (draws : Draws F) where
  -- The entity is put into the manager before its behaviour is told.
  unfoldable pub spawn_entity_with_id : Game F → ℕ → Vec2 → ℕ → Game F × List Sent
  unfolding add_entity write_entity get_behavior
  spawn_entity_with_id g kind p id =
      let e = new_entity ops id kind p in
      let em = add_entity g.manager e in
      (
        record g {
          manager = write_entity em (spawned ops format_uint (get_behavior em kind) draws e);
        },
        to_all (entity_spawn id p) ∷ [],
      )

  unfoldable pub spawn_entity : Game F → ℕ → Vec2 → Game F × List Sent
  unfolding spawn_entity_with_id
  spawn_entity g kind p =
      let id = (g.last_entity_id + 1) % 2 ^ 64 in
      spawn_entity_with_id (record g { last_entity_id = id }) kind p id

module _ {F : Type 0} where
  -- DespawnEntity tells the clients, and leaves the entity where it is.
  unfoldable pub despawn_entity : Game F → ℕ → Game F × List Sent
  despawn_entity g id = (g, to_all (entity_despawn id "deleted") ∷ [])

  unfoldable pub position_of : Option (Entity F) → Option Vec3
  position_of none = none
  position_of (some e) = some (record { x = e.position.x; y = e.position.y; z = pos 1 })

  unfoldable pub get_entity_position : Game F → ℕ → Option Vec3
  unfolding position_of get_entity
  get_entity_position g id = position_of (get_entity g.manager id)

abbrev pub default_spawn_position : Vec3
default_spawn_position = record { x = pos 0; y = pos 0; z = pos 1 }
