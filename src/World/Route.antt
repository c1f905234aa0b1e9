-- ===== src/World/Route.antt =====
-- Events on their way to the BigChunks: internal/world/world.go. What finds a channel full is
-- dropped. What is told to the network and published on the event bus is returned in order; an
-- event that json.Marshal refuses is not published.
use mmo_game.Prelude.{
  ℕ, ◌+◌, ◌%◌, ◌^◌, Bool, true, false, ◌&&◌, Option, none, some, List, [], ◌∷◌, ◌++◌, lookup,
  insert, if◌then◌else◌, ◌==◌,
}
use mmo_game.Vec.{Vec2, vec2_eq, to_chunk_coords, to_big_chunk_coords}
use mmo_game.Events.{
  Block, EventData, nothing, EventType, block_change, entity_spawn, entity_despawn, BlockEvent,
  EntityEvent, Entities, Event, block_event, entity_event, tick_event, offer,
}
use mmo_game.BigChunk.{BigChunk, zero_coords}
use mmo_game.World.{World, store, reach_big_chunk}

-- The capacity of a BigChunk's eventsIn, and that of globalEvents.
abbrev pub events_in_capacity : ℕ
events_in_capacity = 1000

abbrev pub global_capacity : ℕ
global_capacity = 5000

pub data Notice (F : Type 0) : Type 0 where
  send_block_update : Vec2 → Block F → Notice F
  publish : Event F → Notice F

-- A BigChunk with one more event in its channel, if there is room.
unfoldable pub deliver : {F : Type 0} → BigChunk F → Event F → BigChunk F
deliver bc e = record bc { events_in = offer events_in_capacity bc.events_in e }

abbrev pub is_block_change : EventType → Bool
is_block_change block_change = true
is_block_change _ = false

module _ {F : Type 0} (load : Vec2 → Entities F → Entities F) where
  -- To the BigChunk at given coordinates, which is created when it is missing.
  unfoldable pub send_to : World F → Vec2 → Event F → World F
  unfolding reach_big_chunk deliver
  send_to w k e = let found = reach_big_chunk load w k in store found.0 k (deliver found.1 e)

  -- The loop over the updates of one BigChunk.
  unfoldable pub send_updates : World F → Vec2 → List (Vec2 × Block F) → World F
  unfolding send_to
  send_updates w k [] = w
  send_updates w k ((p, b) ∷ updates) =
      send_updates
        (send_to w k (
          block_event (record {
            event_type = block_change;
            position = p;
            block = b;
            source_chunk = to_chunk_coords p;
            target_chunk = to_chunk_coords p;
            contents = nothing;
          })))
        k updates

module _ {F : Type 0} where
  abbrev pub updates_at : Vec2 → Option (List (Vec2 × Block F)) → List (Vec2 × Block F)
  updates_at k none = []
  updates_at k (some updates) = updates

  -- The updates by BigChunk.
  unfoldable pub group_updates :
      List (Vec2 × List (Vec2 × Block F))
      → List (Vec2 × Block F)
      → List (Vec2 × List (Vec2 × Block F))
  group_updates groups [] = groups
  group_updates groups ((p, b) ∷ updates) =
      let k = to_big_chunk_coords p in
      group_updates (insert k (insert p b (updates_at k (lookup k groups))) groups) updates

module _ {F : Type 0} (load : Vec2 → Entities F → Entities F) where
  unfoldable pub send_groups : World F → List (Vec2 × List (Vec2 × Block F)) → World F
  unfolding send_updates
  send_groups w [] = w
  send_groups w ((k, updates) ∷ groups) =
      send_groups (send_updates load (reach_big_chunk load w k).0 k updates) groups

  unfoldable pub batch_update : World F → List (Vec2 × Block F) → World F
  unfolding send_groups group_updates
  batch_update w updates = send_groups w (group_updates [] updates)

module _ {F : Type 0} where
  abbrev pub exit_event : ℕ → Vec2 → EntityEvent F
  exit_event id p = record {
    event_type = entity_despawn;
    entity_id = id;
    position = p;
    source_chunk = to_big_chunk_coords p;
    target_chunk = to_big_chunk_coords p;
    contents = nothing;
  }

  abbrev pub enter_event : ℕ → Vec2 → EntityEvent F
  enter_event id p = record {
    event_type = entity_spawn;
    entity_id = id;
    position = p;
    source_chunk = to_big_chunk_coords p;
    target_chunk = to_big_chunk_coords p;
    contents = nothing;
  }

  -- The counter is a uint64.
  unfoldable pub generate_entity_id : World F → World F × ℕ
  generate_entity_id w =
      let id = (w.next_entity_id + 1) % 2 ^ 64 in (record w { next_entity_id = id }, id)

module _ {F : Type 0} (load : Vec2 → Entities F → Entities F) (marshals : Event F → Bool) where
  abbrev pub published : Event F → List (Notice F)
  published e = if marshals e then publish e ∷ [] else []

  unfoldable pub route_block_event : World F → BlockEvent F → World F × List (Notice F)
  unfolding send_to
  route_block_event w e = (
    send_to load w (to_big_chunk_coords e.position) (block_event e),
    (if is_block_change e.event_type && w.has_network
          then send_block_update e.position e.block ∷ []
          else [])
        ++ published (block_event e),
  )

  unfoldable pub route_entity_event : World F → EntityEvent F → World F × List (Notice F)
  unfolding send_to
  route_entity_event w e =
      (send_to load w (to_big_chunk_coords e.position) (entity_event e), published (entity_event e))

  -- Events of any other type are only logged.
  unfoldable pub routed : World F → Event F → World F × List (Notice F)
  unfolding route_block_event route_entity_event
  routed w (block_event e) = route_block_event w e
  routed w (entity_event e) = route_entity_event w e
  routed w _ = (w, [])

  -- One round of the loop over the global events, oldest first.
  unfoldable pub process_global_event : World F → List (Event F) → World F × List (Notice F)
  unfolding routed
  process_global_event w [] = (w, [])
  process_global_event w (e ∷ rest) = routed (record w { global_events = rest }) e

  unfoldable pub process_entity_movement : World F → ℕ → Vec2 → Vec2 → World F × List (Notice F)
  unfolding route_entity_event
  process_entity_movement w id old_pos new_pos =
      let left = route_entity_event w (exit_event id old_pos) in
      let entered = route_entity_event left.0 (enter_event id new_pos) in
      if to_big_chunk_coords old_pos == to_big_chunk_coords new_pos
      then (w, [])
      else (entered.0, left.1 ++ entered.1)

  unfoldable pub spawn_entity : World F → ℕ → Vec2 → EventData F → World F × ℕ × List (Notice F)
  unfolding generate_entity_id route_entity_event
  spawn_entity w entity_type p contents =
      let (w', id) = generate_entity_id w in
      let sent = route_entity_event w' (record {
        event_type = entity_spawn;
        entity_id = id;
        position = p;
        source_chunk = zero_coords;
        target_chunk = to_big_chunk_coords p;
        contents = contents;
      }) in
      (sent.0, id, sent.1)

  unfoldable pub despawn_entity : World F → ℕ → Vec2 → World F × List (Notice F)
  unfolding route_entity_event
  despawn_entity w id p = route_entity_event w (exit_event id p)

module _ {F : Type 0} where
  unfoldable pub handle_entity_event : World F → EntityEvent F → World F
  handle_entity_event w e = record w {
    global_events = offer global_capacity w.global_events (entity_event e);
  }

  unfoldable pub tick_all : Event F → List (Vec2 × BigChunk F) → List (Vec2 × BigChunk F)
  unfolding deliver
  tick_all e [] = []
  tick_all e ((k, bc) ∷ m) = (k, deliver bc e) ∷ tick_all e m

  unfoldable pub process_tick : World F → World F
  unfolding tick_all
  process_tick w =
      let id = (w.current_tick + 1) % 2 ^ 64 in
      record w { current_tick = id; big_chunks = tick_all (tick_event id) w.big_chunks }
