-- ===== src/World/Drive.antt =====
-- The world manager and a BigChunk together: what the BigChunk sends on eventsOut is what waits in
-- the world's globalEvents, and comes back with the next round of processGlobalEvents.
use mmo_game.Prelude.{
  ℕ, zero, suc, ◌>>=◌, Bool, Option, none, some, List, [], ◌∷◌, ◌++◌, lookup, length, ltb,
  if◌then◌else◌,
}
use mmo_game.Vec.{Vec2, vec2_eq}
use mmo_game.Block.{Registry}
use mmo_game.Events.{EntityEvent, Entities, Event, offer}
use mmo_game.BigChunk.{BigChunk, Send, wait, attempt, Run, finished}
use mmo_game.BigChunk.Handle.{process_pending_events}
use mmo_game.World.{World, store}
use mmo_game.World.Route.{global_capacity, process_global_event}

module _ {F : Type 0} where
  -- A send that finds the channel full waits for good, since the loop that reads it is not running.
  unfoldable pub send_out : World F → List (Send F) → Option (World F)
  send_out w [] = some w
  send_out w (wait e ∷ sent) =
      let rest = send_out (record w { global_events = w.global_events ++ e ∷ [] }) sent in
      if ltb (length w.global_events) global_capacity then rest else none
  send_out w (attempt e ∷ sent) =
      send_out (record w { global_events = offer global_capacity w.global_events e }) sent

  unfoldable pub after_run : World F → Vec2 → Run F → Option (World F)
  unfolding send_out
  after_run w k (finished bc sent) = send_out (store w k bc) sent
  after_run w k _ = none

module _ {F : Type 0} (registry : Registry) (random_id : EntityEvent F → ℕ) where
  unfoldable pub run_found : World F → Vec2 → Option (BigChunk F) → Option (World F)
  unfolding after_run
  run_found w k none = some w
  run_found w k (some bc) = after_run w k (process_pending_events registry random_id bc)

  -- A BigChunk handles what waits in its channel.
  unfoldable pub run_big_chunk : World F → Vec2 → Option (World F)
  unfolding run_found
  run_big_chunk w k = run_found w k (lookup k w.big_chunks)

module _ {F : Type 0} (registry : Registry) (random_id : EntityEvent F → ℕ)
    (load : Vec2 → Entities F → Entities F) (marshals : Event F → Bool) where
  -- The BigChunk, and then one round of the world's loop.
  unfoldable pub round : Vec2 → World F → Option (World F)
  round k w = do
    w' ← run_big_chunk registry random_id w k
    some (process_global_event load marshals w' w'.global_events).0

  unfoldable pub rounds : ℕ → Vec2 → World F → Option (World F)
  unfolding round
  rounds zero k w = some w
  rounds (suc n) k w = do w' ← round k w; rounds n k w'
