-- ===== src/Examples/Buses.antt =====
-- A bus with two subscribers, and BigChunks with blocks and a cow.
use mmo_game.Prelude.{
  ℕ, ◌+◌, pos, ◌+ℤ◌, wrap, some, [], ◌∷◌, ◌≡◌, ◌⊎◌, refl, lookup, insert, string_eq, int_eq, nat_eq,
}
use mmo_game.Vec.{Vec2, vec2_eq, to_chunk_coords, local_in_chunk}
use mmo_game.Block.{get}
use mmo_game.Block.Dispatch.{initial_registry, id, needs_tick}
use mmo_game.Chunk.{Chunk, BlockCoord, at, new_chunk, set_block_layer as write_chunk}
use mmo_game.Chunk.Cells.{cells_of}
use mmo_game.Events.{Block}
use mmo_game.Bus.{Envelope, Filter, MemoryBus, new_memory_bus, unsubscribe, dispatch, call_handler}
use mmo_game.Bus.Runs.{handed_out, called, here, next, times, unsubscribe-silent}
use mmo_game.BigChunk.{BigChunk, new_big_chunk, Run, finished}
use mmo_game.BigChunk.Handle.{
  set_block_layer, write_block_to, set_payload, old_id, set_over, place_on,
}
use mmo_game.BigChunk.Setting.{Outcome, set_block_layer-cases}
use mmo_game.BigChunk.Blocking.{set_block_layer-unloaded, empty_cell}

abbrev event : Envelope
event = record {
  id = "e1";
  timestamp = 9;
  source = "world_manager";
  event_type = "BlockEvent";
  version = pos 1;
  correlation_id = "";
  tenant = "";
  priority = pos 5;
  payload = 7 ∷ [];
  metadata = [];
}

abbrev blocks_only : Filter
blocks_only = record { types = "BlockEvent" ∷ []; sources = [] }

abbrev chat_only : Filter
chat_only = record { types = "ChatEvent" ∷ []; sources = [] }

abbrev busy : MemoryBus
busy = record (new_memory_bus 1) {
  subscribers = (pos 0, blocks_only) ∷ (pos 1, chat_only) ∷ [];
  next_id = pos 2;
  buffer = event ∷ [];
  started = (pos 0, event) ∷ [];
  entered = (pos 0, event) ∷ [];
}

abbrev left : MemoryBus
left = unsubscribe busy (pos 0)

-- The handler of a subscriber that has gone is called, by a goroutine that is past its look.
abbrev served : MemoryBus
served = call_handler (record left { entered = [] }) (pos 0) event

unsubscribe-silent_example :
    times (pos 0) (dispatch served).handled + times (pos 0) (dispatch served).entered ≡ 1
unfolding new_memory_bus lookup unsubscribe dispatch call_handler
unsubscribe-silent_example =
    unsubscribe-silent busy (dispatch served) (pos 0) blocks_only refl
      (next (called [] [] (pos 0) event refl) (next handed_out here))

abbrev origin : Vec2
origin = record { x = pos 0; y = pos 0 }

abbrev spot : Vec2
spot = record { x = pos 20; y = pos 3 }

abbrev forest : BigChunk ℕ
forest = record (new_big_chunk origin) {
  chunks =
      (
        record { x = pos 1; y = pos 0 },
        record (new_chunk (record { x = pos 1; y = pos 0 })) { blocks = λ k. 101 },
      )
      ∷ [];
}

abbrev dirt_block : Block ℕ
dirt_block = record { id = 5; payload = [] }

set_block_layer-cases_example : Outcome forest spot 1 dirt_block
set_block_layer-cases_example = set_block_layer-cases forest spot 1 dirt_block

abbrev farm : BigChunk ℕ
farm = new_big_chunk origin

abbrev floor_laid : Run ℕ → BigChunk ℕ
floor_laid (finished bc sent) = bc
floor_laid _ = farm

abbrev laid : BigChunk ℕ
laid = floor_laid (set_block_layer initial_registry farm spot 0 dirt_block)

set_block_layer-unloaded_example :
    (chunk : Chunk ℕ) × (lookup (to_chunk_coords spot) laid.chunks ≡ some chunk)
    × ((k : BlockCoord)
        → (at 0 (local_in_chunk spot) ≡ k) ⊎ (cells_of chunk k ≡ empty_cell initial_registry))
unfolding set_block_layer old_id set_over place_on write_block_to set_payload new_big_chunk
    new_chunk lookup insert to_chunk_coords local_in_chunk initial_registry get id needs_tick wrap
    ◌+ℤ◌ write_chunk
set_block_layer-unloaded_example =
    set_block_layer-unloaded initial_registry farm laid spot 0 dirt_block [] refl refl
