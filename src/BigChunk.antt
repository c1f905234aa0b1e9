-- ===== src/BigChunk.antt =====
-- A BigChunk, the part of the world that one goroutine simulates: internal/world/bigchunk.go. A
-- method that holds the mutex for writing and calls one that takes it again never returns; that
-- is the outcome `blocked`. What is sent on eventsOut is returned, in order. The random draws are
-- arguments. The ticks of blocks, which go through the world's BlockAPI, are left out.
pub mod Npc
pub mod Handle
pub mod Write
pub mod Pending
pub mod Blocking
pub mod BuiltIn
pub mod Setting
use mmo_game.Prelude.{
  ℕ, ◌+◌, ◌%◌, ◌^◌, ℤ, pos, negsuc, ◌+ℤ◌, wrap, Bool, true, false, not, ◌&&◌, Option, none, some,
  List, [], ◌∷◌, ◌++◌, ◌≡◌, lookup, insert, delete, if◌then◌else◌, ◌==◌, nat_eq, string_eq,
  get_elem?,
}
use mmo_game.Vec.{Vec2, vec2_eq, to_chunk_coords, to_big_chunk_coords, local_in_chunk}
use mmo_game.Physics.{new_box_collider, can_move_to_position, check_box_collision}
use mmo_game.Block.{
  Metadata, Behavior, air, stone, grass, water, dirt, deep_water, tree, cactus, simple, Registry,
  get, air_block_id, grass_block_id,
}
use mmo_game.Chunk.{
  Chunk, new_chunk, layer_active, get_block, set_block_metadata_layer, coord_eq,
  set_block_layer as write_chunk, get_block_layer as read_chunk,
}
use mmo_game.Events.{
  Block, get_behavior, block_needs_tick, Field, Fields, as_uint8, as_uint16, EntityData, EventData,
  nothing, fields, entity, EventType, block_set, block_get, block_change, block_interact,
  entity_interact, entity_spawn, entity_move, entity_action, entity_despawn, tick, save, BlockEvent,
  EntityEvent, Entities, Event, block_event, entity_event, save_event, tick_event,
  entity_save_event,
}

pub record BigChunk (F : Type 0) : Type 0 where
  pub coords : Vec2
  pub chunks : List (Vec2 × Chunk F)
  pub events_in : List (Event F)
  pub tickables : List (Vec2 × Unit {0})
  pub once_tickables : List (Vec2 × Unit {0})
  pub entities : Entities F
  pub tick_id : ℕ

unfoldable pub new_big_chunk : {F : Type 0} → Vec2 → BigChunk F
new_big_chunk coords = record {
  coords = coords;
  chunks = [];
  events_in = [];
  tickables = [];
  once_tickables = [];
  entities = [];
  tick_id = 0;
}

-- A goroutine's send: `wait` blocks until there is room, `attempt` is dropped when there is none.
pub data Send (F : Type 0) : Type 0 where
  wait attempt : Event F → Send F

-- How a method ends.
pub data Run (F : Type 0) : Type 0 where
  blocked : Run F
  panicked : Run F
  finished : BigChunk F → List (Send F) → Run F

-- The calls of the block interface that a behaviour may make. Those that look into the BigChunk
-- take its mutex; the others only send an event.
pub data ApiCall : Type 0 where
  get_block_id set_block get_block_metadata set_block_metadata : ApiCall
  get_block_id_layer set_block_layer_call schedule_update_once : ApiCall

unfoldable pub takes_mutex : ApiCall → Bool
takes_mutex set_block = false
takes_mutex set_block_layer_call = false
takes_mutex _ = true

-- The first call that each behaviour's OnBreak and OnPlace make, if any.
unfoldable pub first_on_break : Behavior → Option ApiCall
first_on_break stone = some get_block_metadata
first_on_break water = some schedule_update_once
first_on_break deep_water = some schedule_update_once
first_on_break tree = some get_block_id_layer
first_on_break cactus = some get_block_id_layer
first_on_break _ = none

unfoldable pub first_on_place : Behavior → Option ApiCall
first_on_place stone = some set_block_metadata
first_on_place grass = some set_block_metadata
first_on_place water = some set_block_metadata
first_on_place dirt = some set_block_metadata
first_on_place deep_water = some set_block_metadata
first_on_place tree = some get_block_id_layer
first_on_place cactus = some get_block_id_layer
first_on_place _ = none

abbrev pub call_blocks : Option ApiCall → Bool
unfolding takes_mutex
call_blocks none = false
call_blocks (some call) = takes_mutex call

-- Whether a behaviour's method blocks while the mutex is held for writing.
unfoldable pub on_break_blocks : Option Behavior → Bool
unfolding first_on_break
on_break_blocks none = false
on_break_blocks (some behavior) = call_blocks (first_on_break behavior)

unfoldable pub on_place_blocks : Option Behavior → Bool
unfolding first_on_place
on_place_blocks none = false
on_place_blocks (some behavior) = call_blocks (first_on_place behavior)

abbrev pub zero_coords : Vec2
zero_coords = record { x = pos 0; y = pos 0 }

abbrev pub chunk_or_new : {F : Type 0} → Vec2 → Option (Chunk F) → Chunk F
chunk_or_new coords none = new_chunk coords
chunk_or_new coords (some chunk) = chunk
