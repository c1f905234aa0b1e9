-- ===== src/Game/Requests.antt =====
-- Which handler an action goes to, and what the clients are told: processEntityAction and
-- handleEntityAction of internal/network/game_handler_pb.go. `none` is a request that cannot be
-- decoded.
use mmo_game.Prelude.{
  ℕ, String, ◌&&◌, Option, none, some, List, [], ◌∷◌, ◌++◌, lookup, if◌then◌else◌, string_eq,
}
use mmo_game.Prelude.Outcome.{Outcome, done, ◌>>=◌}
use mmo_game.Vec.{Vec2}
use mmo_game.Vec.Float.{FloatOps}
use mmo_game.Block.{Registry}
use mmo_game.Chunk.{Chunk}
use mmo_game.Events.{Entities}
use mmo_game.Entity.{Entity, Draws}
use mmo_game.Entity.Manager.{get_entity}
use mmo_game.Game.{Game, Sent, to_client, to_all, entity_action, action_response}
use mmo_game.Game.Actions.{
  ActionType, interact, attack, use_item, pickup, drop, emote, respawn, build_place, build_break,
  ActionRequest, Reply, Acted, refuse, accept, handle_interact, handle_attack, handle_use_item,
  handle_respawn,
}
use mmo_game.Game.Items.{handle_pickup, handle_drop, handle_build_place, handle_build_break}

module _ {F : Type 0} (ops : FloatOps F) (registry : Registry)
    (load : Vec2 → Entities F → Entities F) (generate : Vec2 → Chunk F) (format_uint : ℕ → String)
    (draws : Draws F) where
  handler : ActionType → Game F → Entity F → ActionRequest → Acted F
  unfolding handle_interact handle_attack handle_use_item handle_pickup handle_drop
      handle_build_place handle_build_break handle_respawn
  handler interact g actor action = handle_interact ops registry load generate g actor action
  handler attack g actor action = handle_attack ops draws g actor action
  handler use_item g actor action = handle_use_item g action
  handler pickup g actor action = handle_pickup ops g actor action
  handler drop g actor action =
      handle_drop ops registry load generate format_uint draws g actor action
  handler build_place g actor action = handle_build_place ops registry load generate g actor action
  handler build_break g actor action =
      handle_build_break ops registry load generate format_uint draws g actor action
  handler emote g actor action = accept g "Эмоция выполнена"
  handler respawn g actor action = handle_respawn ops g actor
  handler _ g actor action = refuse g "Неизвестный тип действия"

  process_found : Option (Entity F) → Game F → ActionRequest → Acted F
  unfolding handler
  process_found none g action = refuse g "Сущность не найдена"
  process_found (some actor) g action = handler action.action_type g actor action

  unfoldable pub process_entity_action : Game F → ℕ → ActionRequest → Acted F
  unfolding process_found get_entity
  process_entity_action g actor_id action = process_found (get_entity g.manager actor_id) g action

  abbrev responses : String → Reply → List Sent
  responses conn_id reply =
      to_client conn_id (action_response reply.success reply.message)
      ∷ (if reply.success && reply.should_broadcast then to_all entity_action ∷ [] else [])

  act_as : Option (Entity F) → Game F → String → ℕ → ActionRequest → Outcome (Game F × List Sent)
  unfolding process_entity_action
  act_as none g conn_id id action = done (g, [])
  act_as (some e) g conn_id id action = process_entity_action g id action >>= λ (g', reply, sent).
      done (g', sent ++ responses conn_id reply)

  act_for : Option ℕ → Game F → String → ActionRequest → Outcome (Game F × List Sent)
  unfolding act_as get_entity
  act_for none g conn_id action = done (g, [])
  act_for (some id) g conn_id action = act_as (get_entity g.manager id) g conn_id id action

  unfoldable pub handle_entity_action :
      Game F → String → Option ActionRequest → Outcome (Game F × List Sent)
  unfolding act_for
  handle_entity_action g conn_id none = done (g, [])
  handle_entity_action g conn_id (some action) =
      act_for (lookup conn_id g.player_entities) g conn_id action
