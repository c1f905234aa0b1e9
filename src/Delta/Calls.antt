-- ===== src/Delta/Calls.antt =====
-- The manager's life as a sequence of calls.
use mmo_game.Prelude.{ℤ, String, List, [], ◌∷◌}
use mmo_game.Vec.{Vec2}
use mmo_game.Delta.{
  Manager, BlockChangeInfo, add_block_change, subscribe, unsubscribe, update_subscription,
  flush_pending_changes,
}

pub data Call (F : Type 0) : Type 0 where
  adds : ℤ → Vec2 → BlockChangeInfo F → Call F
  subscribes : String → Vec2 → ℤ → Call F
  unsubscribes : String → Call F
  updates : String → Vec2 → ℤ → Call F
  flushes : ℤ → Call F

module _ {F : Type 0} where
  unfoldable pub call : Manager F → Call F → Manager F
  call m (adds now p info) = add_block_change now m p info
  call m (subscribes conn_id center radius) = subscribe m conn_id center radius
  call m (unsubscribes conn_id) = unsubscribe m conn_id
  call m (updates conn_id center radius) = update_subscription m conn_id center radius
  call m (flushes now) = (flush_pending_changes now m).0

  unfoldable pub calls : Manager F → List (Call F) → Manager F
  calls m [] = m
  calls m (c ∷ cs) = calls (call m c) cs
