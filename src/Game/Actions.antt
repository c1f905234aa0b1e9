-- ===== src/Game/Actions.antt =====
-- What a player's entity does to another entity, to a block or to itself: the handlers of these
-- actions in internal/network/game_handler_pb.go. No block type has the method IsInteractable,
-- for which the first of them asks.
use mmo_game.Prelude.{
  ℕ, pos, String, Bool, true, false, Option, none, some, List, [], if◌then◌else◌, ◌==◌, nat_eq,
}
use mmo_game.Prelude.Outcome.{Outcome, done, ◌>>=◌}
use mmo_game.Vec.{Vec2, to_vec2}
use mmo_game.Vec.Float.{FloatOps, from_vec2, int_distance}
use mmo_game.Block.{Registry}
use mmo_game.Chunk.{Chunk}
use mmo_game.Events.{Entities}
use mmo_game.Entity.{Entity, Draws, player_type, npc_type}
use mmo_game.Entity.Behavior.{EntityBehavior, on_damage}
use mmo_game.Entity.Manager.{get_entity, get_behavior, write_entity}
use mmo_game.Game.{Game, Sent, read_block, default_spawn_position}

pub data ActionType : Type 0 where
  interact attack use_item pickup drop : ActionType
  trade craft emote respawn build_place build_break unknown : ActionType

pub record ActionRequest : Type 0 where
  pub action_type : ActionType
  pub target_id : Option ℕ
  pub position : Option Vec2
  pub item_id : Option ℕ

pub record Reply : Type 0 where
  pub success : Bool
  pub message : String
  pub should_broadcast : Bool

abbrev pub Acted : Type 0 → Type 0
Acted F = Outcome (Game F × Reply × List Sent)

module _ {F : Type 0} where
  abbrev pub refuse : Game F → String → Acted F
  refuse g message =
      done (g, record { success = false; message = message; should_broadcast = false }, [])

  abbrev pub accept : Game F → String → Acted F
  accept g message =
      done (g, record { success = true; message = message; should_broadcast = true }, [])

module _ {F : Type 0} (ops : FloatOps F) where
  unfoldable pub further : Vec2 → Vec2 → ℕ → Bool
  unfolding int_distance
  further p q reach = ops.less (ops.lit reach 0) (int_distance ops p q)

module _ {F : Type 0} (ops : FloatOps F) (registry : Registry)
    (load : Vec2 → Entities F → Entities F) (generate : Vec2 → Chunk F) where
  interact_with : Game F → Entity F → Option (Entity F) → Acted F
  interact_with g actor none = refuse g "Цель не найдена"
  interact_with g actor (some target) =
      if further ops actor.position target.position 3
      then refuse g "Слишком далеко"
      else (if target.entity_type == npc_type
          then accept g "Разговор с NPC"
          else (if target.entity_type == player_type
              then accept g "Взаимодействие с игроком"
              else refuse g "Нельзя взаимодействовать с этим объектом"))

  interact_block : Game F → Entity F → Option Vec2 → Acted F
  unfolding read_block
  interact_block g actor none = refuse g "Не указана цель взаимодействия"
  interact_block g actor (some p) =
      if further ops actor.position p 3
      then refuse g "Слишком далеко"
      else (read_block registry load generate g.world p >>= λ (w', b).
          refuse (record g { world = w' }) "С этим блоком нельзя взаимодействовать")

  interact_target : Game F → Entity F → Option ℕ → Option Vec2 → Acted F
  unfolding interact_with interact_block get_entity
  interact_target g actor (some id) p = interact_with g actor (get_entity g.manager id)
  interact_target g actor none p = interact_block g actor p

  unfoldable pub handle_interact : Game F → Entity F → ActionRequest → Acted F
  unfolding interact_target
  handle_interact g actor action = interact_target g actor action.target_id action.position

unfoldable pub hurt_target : {F : Type 0} → Game F → Entity F × Bool → Acted F
unfolding write_entity
hurt_target g (target, true) =
    accept (record g { manager = write_entity g.manager target }) "Атака успешна"
hurt_target g (target, false) =
    refuse (record g { manager = write_entity g.manager target }) "Атака заблокирована"

module _ {F : Type 0} (ops : FloatOps F) (draws : Draws F) where
  unfoldable pub strike : Game F → Entity F → Entity F → Option (EntityBehavior F) → Acted F
  unfolding on_damage hurt_target
  strike g actor target none = accept g "Атака выполнена"
  strike g actor target (some b) =
      hurt_target g (on_damage ops b draws target (pos 10) (some actor))

  unfoldable pub attack_entity : Game F → Entity F → Option (Entity F) → Acted F
  unfolding strike get_behavior
  attack_entity g actor none = refuse g "Цель не найдена"
  attack_entity g actor (some target) =
      if further ops actor.position target.position 2
      then refuse g "Слишком далеко для атаки"
      else (if actor.id == target.id
          then refuse g "Нельзя атаковать себя"
          else strike g actor target (get_behavior g.manager target.entity_type))

  unfoldable pub attack_target : Game F → Entity F → Option ℕ → Acted F
  unfolding attack_entity get_entity
  attack_target g actor none = refuse g "Не указана цель атаки"
  attack_target g actor (some id) = attack_entity g actor (get_entity g.manager id)

  unfoldable pub handle_attack : Game F → Entity F → ActionRequest → Acted F
  unfolding attack_target
  handle_attack g actor action = attack_target g actor action.target_id

module _ {F : Type 0} where
  use_kind : Game F → Option ℕ → Acted F
  use_kind g none = refuse g "Не указан предмет"
  use_kind g (some item) =
      if item == 1
      then done (
        g,
        record { success = true; message = "Использовано зелье лечения"; should_broadcast = false },
        [],
      )
      else (if item == 2
          then done (
            g,
            record { success = true; message = "Использован инструмент"; should_broadcast = false },
            [],
          )
          else refuse g "Неизвестный предмет")

  unfoldable pub handle_use_item : Game F → ActionRequest → Acted F
  unfolding use_kind
  handle_use_item g action = use_kind g action.item_id

module _ {F : Type 0} (ops : FloatOps F) where
  -- Only an entity that is not active comes back, at the default position.
  unfoldable pub handle_respawn : Game F → Entity F → Acted F
  unfolding write_entity from_vec2 to_vec2
  handle_respawn g actor =
      if actor.active
      then refuse g "Игрок уже жив"
      else accept
          (record g {
            manager = write_entity g.manager (record actor {
              position = to_vec2 default_spawn_position;
              precise_pos = from_vec2 ops (to_vec2 default_spawn_position);
              active = true;
            });
          })
          "Игрок возрождён"
