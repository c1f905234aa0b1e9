-- ===== src/Game/Items.antt =====
-- Items and blocks in the hands of a player's entity: the handlers of picking up, dropping,
-- placing and breaking in internal/network/game_handler_pb.go. No block type has the method
-- IsBreakable, for which the last of them asks.
use mmo_game.Prelude.{
  ℕ, ◌%◌, ◌^◌, String, true, not, Option, none, some, List, if◌then◌else◌, ◌==◌, nat_eq,
}
use mmo_game.Prelude.Outcome.{done, ◌>>=◌}
use mmo_game.Vec.{Vec2}
use mmo_game.Vec.Float.{FloatOps}
use mmo_game.Block.{Registry, air_block_id, stone_block_id}
use mmo_game.Chunk.{Chunk}
use mmo_game.Events.{new_block, Entities}
use mmo_game.Entity.{Entity, Draws, item_type}
use mmo_game.Entity.Manager.{get_entity}
use mmo_game.Game.{
  Game, Sent, read_block, write_block, is_position_walkable, spawn_entity, despawn_entity,
}
use mmo_game.Game.Actions.{ActionRequest, Acted, refuse, accept, further}

-- An action that is done, with what it has sent.
abbrev pub accept_with : {F : Type 0} → Game F × List Sent → String → Acted F
accept_with (g, sent) message =
    done (g, record { success = true; message = message; should_broadcast = true }, sent)

module _ {F : Type 0} (ops : FloatOps F) where
  unfoldable pub take_entity : Game F → Entity F → Option (Entity F) → Acted F
  unfolding despawn_entity
  take_entity g actor none = refuse g "Предмет не найден"
  take_entity g actor (some target) =
      if not (target.entity_type == item_type)
      then refuse g "Это не предмет"
      else (if further ops actor.position target.position 2
          then refuse g "Слишком далеко"
          else accept_with (despawn_entity g target.id) "Предмет подобран")

  unfoldable pub take_target : Game F → Entity F → Option ℕ → Acted F
  unfolding take_entity get_entity
  take_target g actor none = refuse g "Не указан предмет для подбора"
  take_target g actor (some id) = take_entity g actor (get_entity g.manager id)

  unfoldable pub handle_pickup : Game F → Entity F → ActionRequest → Acted F
  unfolding take_target
  handle_pickup g actor action = take_target g actor action.target_id

-- The block's id is the item's, cut to 16 bits; without an item it is stone.
abbrev pub placed_id : Option ℕ → ℕ
placed_id none = stone_block_id
placed_id (some item) = item % 2 ^ 16

module _ {F : Type 0} (ops : FloatOps F) (registry : Registry)
    (load : Vec2 → Entities F → Entities F) (generate : Vec2 → Chunk F) where
  unfoldable pub place_at : Game F → Entity F → Option ℕ → Option Vec2 → Acted F
  unfolding read_block write_block
  place_at g actor item none = refuse g "Не указана позиция"
  place_at g actor item (some p) =
      if further ops actor.position p 5
      then refuse g "Слишком далеко"
      else (read_block registry load generate g.world p >>= λ (w', b).
          (let write : Acted F =
              write_block registry load generate w' p (new_block registry (placed_id item))
              >>= λ w''. accept (record g { world = w'' }) "Блок размещён" in
            if b.id == air_block_id
            then write
            else refuse (record g { world = w' }) "Позиция занята"))

  unfoldable pub handle_build_place : Game F → Entity F → ActionRequest → Acted F
  unfolding place_at
  handle_build_place g actor action = place_at g actor action.item_id action.position

module _ {F : Type 0} (ops : FloatOps F) (registry : Registry)
    (load : Vec2 → Entities F → Entities F) (generate : Vec2 → Chunk F) (format_uint : ℕ → String)
    (draws : Draws F) where
  unfoldable pub break_at : Game F → Entity F → Option Vec2 → Acted F
  unfolding read_block write_block spawn_entity
  break_at g actor none = refuse g "Не указана позиция"
  break_at g actor (some p) =
      if further ops actor.position p 5
      then refuse g "Слишком далеко"
      else (read_block registry load generate g.world p >>= λ (w', b).
          (let write : Acted F =
              write_block registry load generate w' p (new_block registry air_block_id) >>= λ w''.
              accept_with
                (spawn_entity ops format_uint draws (record g { world = w'' }) item_type p)
                "Блок сломан" in
            if b.id == air_block_id
            then refuse (record g { world = w' }) "Нечего ломать"
            else write))

  unfoldable pub handle_build_break : Game F → Entity F → ActionRequest → Acted F
  unfolding break_at
  handle_build_break g actor action = break_at g actor action.position

  drop_at : Game F → Vec2 → Acted F
  unfolding is_position_walkable spawn_entity
  drop_at g p = is_position_walkable registry load generate g.world p >>= λ (w', free).
      (if free
        then accept_with (spawn_entity ops format_uint draws (record g { world = w' }) item_type p)
            "Предмет выброшен"
        else refuse (record g { world = w' }) "Позиция занята")

  drop_near : Game F → Entity F → Option Vec2 → Acted F
  unfolding drop_at
  drop_near g actor none = drop_at g actor.position
  drop_near g actor (some p) =
      if further ops actor.position p 2 then refuse g "Слишком далеко" else drop_at g p

  drop_item : Game F → Entity F → Option ℕ → Option Vec2 → Acted F
  unfolding drop_near
  drop_item g actor none p = refuse g "Не указан предмет"
  drop_item g actor (some item) p = drop_near g actor p

  unfoldable pub handle_drop : Game F → Entity F → ActionRequest → Acted F
  unfolding drop_item
  handle_drop g actor action = drop_item g actor action.item_id action.position
