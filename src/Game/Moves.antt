-- ===== src/Game/Moves.antt =====
-- Movement by the clients: handleEntityMove of internal/network/game_handler_pb.go. What the
-- world publishes is left out.
use mmo_game.Prelude.{
  ℕ, String, Bool, not, Option, none, some, List, [], ◌∷◌, ◌++◌, lookup, if◌then◌else◌, ◌==◌,
  nat_eq, string_eq,
}
use mmo_game.Prelude.Outcome.{Outcome, panicked, done, ◌>>=◌}
use mmo_game.Vec.{Vec2}
use mmo_game.Vec.Float.{FloatOps, to_vec2, from_vec2}
use mmo_game.Block.{Registry}
use mmo_game.Chunk.{Chunk}
use mmo_game.Events.{Entities, Event}
use mmo_game.World.Route.{process_entity_movement}
use mmo_game.Entity.{Entity}
use mmo_game.Entity.Manager.{get_entity, write_entity}
use mmo_game.Game.{Game, Sent, to_client, to_others, entity_move, is_position_walkable}

-- An entry of the message: an entity, and where it is to go. A message may leave this out.
pub record MoveEntry : Type 0 where
  pub id : ℕ
  pub position : Option Vec2

-- The client that an entity belongs to, "" if there is none.
unfoldable pub owner_of : ℕ → List (String × ℕ) → String
owner_of id [] = ""
owner_of id ((conn_id, other) ∷ rest) =
    let found = owner_of id rest in if other == id then conn_id else found

module _ {F : Type 0} (ops : FloatOps F) where
  unfoldable pub placed : Entity F → Vec2 → Entity F
  unfolding from_vec2
  placed e target = record e { precise_pos = from_vec2 ops target; position = target }

module _ {F : Type 0} (ops : FloatOps F) (registry : Registry)
    (load : Vec2 → Entities F → Entities F) (generate : Vec2 → Chunk F)
    (marshals : Event F → Bool) where
  unfoldable pub move_if : Bool → Game F → String → Entity F → Vec2 → Game F × List Sent
  unfolding placed process_entity_movement to_vec2 write_entity owner_of
  move_if free g conn_id e target =
      if free
      then (
        record g {
          manager = write_entity g.manager (placed ops e target);
          world =
              (process_entity_movement load marshals g.world e.id (to_vec2 ops e.precise_pos)
                target).0;
        },
        to_others (owner_of e.id g.player_entities) (entity_move e.id target) ∷ [],
      )
      else (g, to_client conn_id (entity_move e.id e.position) ∷ [])

  -- A position that is missing is a nil pointer.
  unfoldable pub move_to : Game F → String → Entity F → Option Vec2 → Outcome (Game F × List Sent)
  unfolding move_if is_position_walkable
  move_to g conn_id e none = panicked
  move_to g conn_id e (some target) =
      is_position_walkable registry load generate g.world target >>= λ (w', free).
      done (move_if free (record g { world = w' }) conn_id e target)

  unfoldable pub move_found :
      Game F → String → Option (Entity F) → Option Vec2 → Outcome (Game F × List Sent)
  unfolding move_to
  move_found g conn_id none target = done (g, [])
  move_found g conn_id (some e) target = move_to g conn_id e target

  -- A client moves no entity but its own.
  unfoldable pub move_entry : Game F → String → ℕ → MoveEntry → Outcome (Game F × List Sent)
  unfolding move_found get_entity
  move_entry g conn_id owner_id entry =
      if not (entry.id == owner_id)
      then done (g, [])
      else move_found g conn_id (get_entity g.manager entry.id) entry.position

  unfoldable pub move_entries : Game F → String → ℕ → List MoveEntry → Outcome (Game F × List Sent)
  unfolding move_entry
  move_entries g conn_id owner_id [] = done (g, [])
  move_entries g conn_id owner_id (entry ∷ entries) =
      move_entry g conn_id owner_id entry >>= λ (g', sent).
      (move_entries g' conn_id owner_id entries >>= λ (g'', more). done (g'', sent ++ more))

  unfoldable pub move_for :
      Option ℕ → Game F → String → List MoveEntry → Outcome (Game F × List Sent)
  unfolding move_entries
  move_for none g conn_id entries = done (g, [])
  move_for (some owner_id) g conn_id entries = move_entries g conn_id owner_id entries

  unfoldable pub handle_entity_move :
      Game F → String → Option (List MoveEntry) → Outcome (Game F × List Sent)
  unfolding move_for
  handle_entity_move g conn_id none = done (g, [])
  handle_entity_move g conn_id (some entries) =
      move_for (lookup conn_id g.player_entities) g conn_id entries
