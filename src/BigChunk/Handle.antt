-- ===== src/BigChunk/Handle.antt =====
-- The handlers of events: from handleEvent on in internal/world/bigchunk.go. Each takes the mutex
-- for writing. An event comes to the BigChunk that its position lies in, so that the layers that
-- trees and cactuses look at are this BigChunk's.
use mmo_game.Prelude.{
  ◌>>=◌, ℕ, Bool, false, not, ◌&&◌, Option, none, some, List, [], ◌∷◌, ◌++◌, lookup, insert, delete,
  if◌then◌else◌, ◌==◌, nat_eq, string_eq,
}
use mmo_game.Vec.{Vec2, vec2_eq, to_chunk_coords, to_big_chunk_coords, local_in_chunk}
use mmo_game.Block.{Metadata, Registry, get, grass_block_id}
use mmo_game.Chunk.{
  Chunk, layer_active, set_block_metadata_layer, coord_eq, set_block_layer as write_chunk,
  get_block_layer as read_chunk,
}
use mmo_game.Events.{
  Block, get_behavior, block_needs_tick, Fields, as_uint8, as_uint16, EntityData, Kept, known,
  loaded, EventData, nothing, fields, entity, EventType, block_change, entity_spawn, entity_move,
  entity_despawn, BlockEvent, EntityEvent, Event, block_event, entity_event, save_event, tick_event,
  entity_save_event,
}
use mmo_game.BigChunk.{
  BigChunk, Send, wait, attempt, Run, blocked, panicked, finished, chunk_or_new, zero_coords,
  on_break_blocks, on_place_blocks,
}

abbrev pub layer_of : {F : Type 0} → EventData F → ℕ
layer_of (fields m) = elim (as_uint8 (lookup "layer" m)) [ none ↦ layer_active | some n ↦ n ]
layer_of _ = layer_active

abbrev pub kind_of : {F : Type 0} → EventData F → ℕ
kind_of (fields m) = elim (as_uint16 (lookup "type" m)) [ none ↦ 0 | some n ↦ n ]
kind_of _ = 0

abbrev pub copied : {F : Type 0} → EventData F → Fields F
copied (fields m) = m
copied _ = []

abbrev pub also_sent : {F : Type 0} → List (Send F) → Run F → Run F
also_sent sent blocked = blocked
also_sent sent panicked = panicked
also_sent sent (finished bc more) = finished bc (sent ++ more)

-- One handler after another; what they send is sent in order.
abbrev pub then_run : {F : Type 0} → Run F → (BigChunk F → Run F) → Run F
then_run blocked f = blocked
then_run panicked f = panicked
then_run (finished bc sent) f = also_sent sent (f bc)

module _ {F : Type 0} where
  -- The loop over the payload.
  unfoldable pub set_payload : Chunk F → ℕ → Vec2 → Metadata F → Option (Chunk F)
  set_payload chunk layer local [] = some chunk
  set_payload chunk layer local ((key, value) ∷ payload) = do
    chunk' ← set_block_metadata_layer chunk layer local key value
    set_payload chunk' layer local payload

module _ {F : Type 0} (registry : Registry) where
  -- The block and its payload.
  unfoldable pub write_block_to : Chunk F → ℕ → Vec2 → Block F → Option (Chunk F)
  unfolding set_payload
  write_block_to chunk layer local b = do
    chunk' ← write_chunk registry chunk layer local b.id
    set_payload chunk' layer local b.payload

  -- The old block's id: that of the zero Block, unless the chunk is there and the layer active.
  unfoldable pub old_id : Option (Chunk F) → ℕ → Vec2 → Option ℕ
  old_id none layer local = some 0
  old_id (some chunk) layer local =
      if layer == layer_active then read_chunk chunk layer local else some 0

  abbrev pub exists_active : Option (Chunk F) → ℕ → Bool
  exists_active none layer = false
  exists_active (some _) layer = layer == layer_active

  -- The list of blocks that tick follows the active layer.
  abbrev pub tickables_after : BigChunk F → Vec2 → ℕ → Block F → List (Vec2 × Unit {0})
  tickables_after bc p layer b =
      if layer == layer_active
      then (if block_needs_tick registry b then insert p tt bc.tickables else delete p bc.tickables)
      else bc.tickables

  -- From the write on: OnPlace comes last, under the mutex.
  unfoldable pub place_on : BigChunk F → Vec2 → ℕ → Block F → ℕ → Option (Chunk F) → Run F
  place_on bc p layer b old none = panicked
  place_on bc p layer b old (some chunk) =
      if layer == layer_active && not (old == b.id) && on_place_blocks (get_behavior registry b)
      then blocked
      else finished
          (record bc {
            chunks = insert (to_chunk_coords p) chunk bc.chunks;
            tickables = tickables_after bc p layer b;
          })
          []

  unfoldable pub set_over : BigChunk F → Vec2 → ℕ → Block F → Option (Chunk F) → Option ℕ → Run F
  unfolding place_on write_block_to
  set_over bc p layer b o none = panicked
  set_over bc p layer b o (some old) =
      if exists_active o layer && not (old == b.id) && on_break_blocks (get old registry)
      then blocked
      else place_on bc p layer b old
          (write_block_to (chunk_or_new (to_chunk_coords p) o) layer (local_in_chunk p) b)

  unfoldable pub set_block_layer : BigChunk F → Vec2 → ℕ → Block F → Run F
  unfolding set_over old_id
  set_block_layer bc p layer b =
      let o = lookup (to_chunk_coords p) bc.chunks in
      set_over bc p layer b o (old_id o layer (local_in_chunk p))

  -- Grass is added to the blocks that tick once more.
  grass_ticks : BlockEvent F → Run F → Run F
  grass_ticks e run =
      if layer_of e.contents == layer_active && e.block.id == grass_block_id
      then then_run run
          (λ bc. finished (record bc { tickables = insert e.position tt bc.tickables }) [])
      else run

  -- No behaviour has the method that an interaction asks for.
  unfoldable pub handle_block_kind : BigChunk F → BlockEvent F → EventType → Run F
  unfolding set_block_layer grass_ticks
  handle_block_kind bc e block_change =
      grass_ticks e (set_block_layer bc e.position (layer_of e.contents) e.block)
  handle_block_kind bc e _ = finished bc []

  unfoldable pub handle_block_event : BigChunk F → BlockEvent F → Run F
  unfolding handle_block_kind
  handle_block_event bc e = handle_block_kind bc e e.event_type

module _ {F : Type 0} (random_id : EntityEvent F → ℕ) where
  abbrev pub spawn_id : EntityEvent F → ℕ
  spawn_id e = if e.entity_id == 0 then random_id e else e.entity_id

  abbrev pub spawned : EntityEvent F → EntityData F
  spawned e = record {
    id = spawn_id e;
    kind = kind_of e.contents;
    position = e.position;
    metadata = copied e.contents;
  }

  abbrev pub confirm : EventType → ℕ → Vec2 → EventData F → Send F
  confirm event_type id p contents = wait (
      entity_event (record {
        event_type = event_type;
        entity_id = id;
        position = p;
        source_chunk = zero_coords;
        target_chunk = zero_coords;
        contents = contents;
      }))

  unfoldable pub spawn_entity : BigChunk F → EntityEvent F → Run F
  spawn_entity bc e =
      finished (record bc { entities = insert (spawn_id e) (known (spawned e)) bc.entities })
        (confirm entity_spawn (spawn_id e) e.position (entity (spawned e)) ∷ [])

  abbrev pub despawn_found : BigChunk F → EntityEvent F → Option (Kept F) → Run F
  despawn_found bc e none = finished bc []
  despawn_found bc e (some _) =
      finished (record bc { entities = delete e.entity_id bc.entities })
        (confirm entity_despawn e.entity_id e.position nothing ∷ [])

  unfoldable pub despawn_entity : BigChunk F → EntityEvent F → Run F
  despawn_entity bc e = despawn_found bc e (lookup e.entity_id bc.entities)

  -- Only an EntityData is moved. canEntityMoveTo takes the mutex that moveEntity holds.
  abbrev pub move_found : BigChunk F → EntityEvent F → Option (Kept F) → Run F
  move_found bc e none = finished bc []
  move_found bc e (some (loaded _)) = finished bc []
  move_found bc e (some (known _)) =
      if to_big_chunk_coords e.position == bc.coords then blocked else finished bc []

  unfoldable pub move_entity : BigChunk F → EntityEvent F → Run F
  move_entity bc e = move_found bc e (lookup e.entity_id bc.entities)

  unfoldable pub handle_entity_kind : BigChunk F → EntityEvent F → EventType → Run F
  unfolding spawn_entity despawn_entity move_entity
  handle_entity_kind bc e entity_spawn = spawn_entity bc e
  handle_entity_kind bc e entity_despawn = despawn_entity bc e
  handle_entity_kind bc e entity_move = move_entity bc e
  handle_entity_kind bc e _ = finished bc []

  unfoldable pub handle_entity_event : BigChunk F → EntityEvent F → Run F
  unfolding handle_entity_kind
  handle_entity_event bc e = handle_entity_kind bc e e.event_type

module _ {F : Type 0} where
  abbrev chunks_of : List (Vec2 × Chunk F) → List (Chunk F)
  chunks_of [] = []
  chunks_of ((_, chunk) ∷ chunks) = chunk ∷ chunks_of chunks

  unfoldable pub save_state : BigChunk F → Bool → Run F
  save_state bc forced = finished bc (
      attempt (save_event forced (chunks_of bc.chunks)) ∷ elim bc.entities [
        | [] ↦ []
        | e ∷ rest ↦ attempt (entity_save_event bc.coords (e ∷ rest)) ∷ []
      ])

  unfoldable pub add_once_tickable : BigChunk F → Vec2 → BigChunk F
  add_once_tickable bc p = record bc { once_tickables = insert p tt bc.once_tickables }

module _ {F : Type 0} (registry : Registry) (random_id : EntityEvent F → ℕ) where
  unfoldable pub handle_event : BigChunk F → Event F → Run F
  handle_event bc (tick_event _) = finished bc []
  handle_event bc (block_event e) = handle_block_event registry bc e
  handle_event bc (entity_event e) = handle_entity_event random_id bc e
  handle_event bc (save_event forced _) = save_state bc forced
  handle_event bc (entity_save_event _ _) = finished bc []

  unfoldable pub handle_all : BigChunk F → List (Event F) → Run F
  unfolding handle_event
  handle_all bc [] = finished bc []
  handle_all bc (e ∷ events) = then_run (handle_event bc e) (λ bc'. handle_all bc' events)

  -- Everything that waits in eventsIn, oldest first.
  unfoldable pub process_pending_events : BigChunk F → Run F
  unfolding handle_all
  process_pending_events bc = handle_all (record bc { events_in = [] }) bc.events_in
