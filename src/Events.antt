-- ===== src/Events.antt =====
-- Blocks, entities and the events between the parts of the world: internal/world/block.go,
-- events.go and the entities of bigchunk.go. A channel is the list of what waits in it.
use mmo_game.Prelude.{
  ℕ, String, Bool, false, Option, none, some, List, [], ◌∷◌, ◌++◌, length, leb, if◌then◌else◌,
  string_eq,
}
use mmo_game.Vec.{Vec2}
use mmo_game.Block.{Value, Metadata, Behavior, Registry, get}
use mmo_game.Block.Dispatch.{needs_tick, create_metadata}
use mmo_game.Chunk.{Chunk}

-- A payload that is nil is read like an empty one, and is never written to.
pub record Block (F : Type 0) : Type 0 where
  pub id : ℕ
  pub payload : Metadata F

unfoldable pub get_behavior : {F : Type 0} → Registry → Block F → Option Behavior
get_behavior registry b = get b.id registry

abbrev pub wants_tick : Option Behavior → Bool
wants_tick none = false
wants_tick (some behavior) = needs_tick behavior

unfoldable pub block_needs_tick : {F : Type 0} → Registry → Block F → Bool
unfolding get_behavior
block_needs_tick registry b = wants_tick (get_behavior registry b)

abbrev pub initial_payload : {F : Type 0} → Option Behavior → Metadata F
initial_payload none = []
initial_payload (some behavior) = create_metadata behavior

unfoldable pub new_block : {F : Type 0} → Registry → ℕ → Block F
new_block registry id = record { id = id; payload = initial_payload (get id registry) }

-- The dynamic type of a value in an event's data.
pub data Field (F : Type 0) : Type 0 where
  uint8 uint16 uint64 : ℕ → Field F
  plain : Value F → Field F

abbrev pub Fields : Type 0 → Type 0
Fields F = List (String × Field F)

abbrev pub as_uint8 : {F : Type 0} → Option (Field F) → Option ℕ
as_uint8 (some (uint8 n)) = some n
as_uint8 _ = none

abbrev pub as_uint16 : {F : Type 0} → Option (Field F) → Option ℕ
as_uint16 (some (uint16 n)) = some n
as_uint16 _ = none

pub record EntityData (F : Type 0) : Type 0 where
  pub id : ℕ
  pub kind : ℕ
  pub position : Vec2
  pub metadata : Fields F

pub data EventType : Type 0 where
  block_set block_get block_change block_interact : EventType
  entity_interact entity_spawn entity_move entity_action entity_despawn : EventType
  tick save : EventType

-- The `Data` of an event: nil, a map, or an entity.
pub data EventData (F : Type 0) : Type 0 where
  nothing : EventData F
  fields : Fields F → EventData F
  entity : EntityData F → EventData F

pub record BlockEvent (F : Type 0) : Type 0 where
  pub event_type : EventType
  pub position : Vec2
  pub block : Block F
  pub source_chunk : Vec2
  pub target_chunk : Vec2
  pub contents : EventData F

pub record EntityEvent (F : Type 0) : Type 0 where
  pub event_type : EventType
  pub entity_id : ℕ
  pub position : Vec2
  pub source_chunk : Vec2
  pub target_chunk : Vec2
  pub contents : EventData F

-- What a BigChunk's map of entities holds, as interface values: the EntityData of an entity that
-- was spawned, or the map of one that was loaded from the storage.
pub data Kept (F : Type 0) : Type 0 where
  known : EntityData F → Kept F
  loaded : Fields F → Kept F

abbrev pub Entities : Type 0 → Type 0
Entities F = List (ℕ × Kept F)

pub data Event (F : Type 0) : Type 0 where
  block_event : BlockEvent F → Event F
  entity_event : EntityEvent F → Event F
  save_event : Bool → List (Chunk F) → Event F
  tick_event : ℕ → Event F
  entity_save_event : Vec2 → Entities F → Event F

unfoldable pub get_type : {F : Type 0} → Event F → EventType
get_type (block_event e) = e.event_type
get_type (entity_event e) = e.event_type
get_type (save_event _ _) = save
get_type (tick_event _) = tick
get_type (entity_save_event _ _) = save

-- A send inside `select` with a default: what finds the channel full is dropped.
unfoldable pub offer : {F : Type 0} → ℕ → List (Event F) → Event F → List (Event F)
offer capacity queue e = if leb capacity (length queue) then queue else queue ++ e ∷ []
