-- ===== src/World.antt =====
-- The manager of the world: internal/world/world.go. Its BigChunks are a map; the chunks in them
-- are shared objects, so that what is written to one is written back under its coordinates. The
-- generator and the storage of entities are arguments. Each method is one step.
pub mod Route
pub mod Saves
pub mod View
pub mod Messages
pub mod Writes
pub mod Refine
pub mod Requests
pub mod Total
pub mod Stale
pub mod Life
pub mod Ids
pub mod Handover
pub mod Drive
pub mod Echo
use mmo_game.Prelude.{
  ℕ, ◌+◌, ℤ, ◌*ℤ◌, wrap, shr, pos, String, Bool, true, false, Option, none, some, List, [], ◌∷◌,
  lookup, insert, string_eq,
}
use mmo_game.Vec.{Vec2, vec2_eq, to_chunk_coords, to_big_chunk_coords, local_in_chunk}
use mmo_game.Block.{Value, Metadata, Registry, air_block_id}
use mmo_game.Chunk.{
  Chunk, layer_active, get_block_layer as read_chunk, get_block_metadata_layer,
  set_block_metadata_layer,
}
use mmo_game.Events.{Block, new_block, Entities, Event}
use mmo_game.BigChunk.{BigChunk, new_big_chunk}
use mmo_game.BigChunk.Handle.{write_block_to}

-- The times are nanoseconds.
pub record World (F : Type 0) : Type 0 where
  pub big_chunks : List (Vec2 × BigChunk F)
  pub global_events : List (Event F)
  pub current_tick : ℕ
  pub last_save_time : ℕ
  pub next_entity_id : ℕ
  pub has_network : Bool

unfoldable pub new_world_manager : {F : Type 0} → ℕ → World F
new_world_manager now = record {
  big_chunks = [];
  global_events = [];
  current_tick = 0;
  last_save_time = now;
  next_entity_id = 1000;
  has_network = false;
}

abbrev pub store : {F : Type 0} → World F → Vec2 → BigChunk F → World F
store w k bc = record w { big_chunks = insert k bc w.big_chunks }

abbrev pub keep_chunk : {F : Type 0} → BigChunk F → Vec2 → Chunk F → BigChunk F
keep_chunk bc c chunk = record bc { chunks = insert c chunk bc.chunks }

-- A write to the chunk object that the BigChunk's map holds.
abbrev pub kept_in : {F : Type 0} → World F → Vec2 → Vec2 → Chunk F → Option (BigChunk F) → World F
kept_in w k c chunk none = w
kept_in w k c chunk (some bc) = store w k (keep_chunk bc c chunk)

abbrev pub write_back : {F : Type 0} → World F → Vec2 → Vec2 → Chunk F → World F
write_back w k c chunk = kept_in w k c chunk (lookup k w.big_chunks)

abbrev pub written : {F : Type 0} → World F → Vec2 → Vec2 → Option (Chunk F) → Option (World F)
written w k c none = none
written w k c (some chunk) = some (write_back w k c chunk)

abbrev pub block_in : {F : Type 0} → Metadata F → Option ℕ → Option (Block F)
block_in m none = none
block_in m (some id) = some (record { id = id; payload = m })

-- Its coordinates of the BigChunk are not those that the other methods compute.
abbrev pub big_chunk_of_chunk : Vec2 → Vec2
big_chunk_of_chunk c = record { x = wrap (shr c.x 4 *ℤ pos 4); y = wrap (shr c.y 4 *ℤ pos 4) }

abbrev pub value_in : {F : Type 0} → String → Option (Block F) → Option (Value F)
value_in key none = none
value_in key (some b) = lookup key b.payload

abbrev pub removed : {F : Type 0} → Option (World F) → Option (Block F) → Option (World F × Block F)
removed (some w) (some old) = some (w, old)
removed _ _ = none

module _ {F : Type 0} (load : Vec2 → Entities F → Entities F) where
  unfoldable pub create_big_chunk : Vec2 → BigChunk F
  create_big_chunk k = record (new_big_chunk k) { entities = load k [] }

  abbrev pub found_big_chunk : World F → Vec2 → Option (BigChunk F) → World F × BigChunk F
  unfolding create_big_chunk
  found_big_chunk w k none = (store w k (create_big_chunk k), create_big_chunk k)
  found_big_chunk w k (some bc) = (w, bc)

  -- The BigChunk, which is created when it is missing.
  unfoldable pub reach_big_chunk : World F → Vec2 → World F × BigChunk F
  reach_big_chunk w k = found_big_chunk w k (lookup k w.big_chunks)

module _ {F : Type 0} (load : Vec2 → Entities F → Entities F) (generate : Vec2 → Chunk F) where
  abbrev pub found_chunk : World F → Vec2 → BigChunk F → Vec2 → Option (Chunk F) → World F × Chunk F
  found_chunk w k bc c none = (store w k (keep_chunk bc c (generate c)), generate c)
  found_chunk w k bc c (some chunk) = (w, chunk)

  -- The chunk of a BigChunk, which is generated when it is missing.
  unfoldable pub reach : World F → Vec2 → Vec2 → World F × Chunk F
  unfolding reach_big_chunk
  reach w k c =
      let found = reach_big_chunk load w k in
      found_chunk found.0 k found.1 c (lookup c found.1.chunks)

  abbrev pub reach_of : World F → Vec2 → World F × Chunk F
  reach_of w p = reach w (to_big_chunk_coords p) (to_chunk_coords p)

  unfoldable pub get_block_layer : World F → Vec2 → ℕ → World F × Option (Block F)
  unfolding reach
  get_block_layer w p layer =
      let found = reach_of w p in
      (
        found.0,
        block_in (get_block_metadata_layer found.1 layer (local_in_chunk p))
            (read_chunk found.1 layer (local_in_chunk p)),
      )

  unfoldable pub get_block : World F → Vec2 → World F × Option (Block F)
  unfolding get_block_layer
  get_block w p = get_block_layer w p layer_active

  unfoldable pub get_chunk : World F → Vec2 → World F × Chunk F
  unfolding reach
  get_chunk w c = reach w (big_chunk_of_chunk c) c

  unfoldable pub get_block_metadata_value : World F → Vec2 → String → World F × Option (Value F)
  unfolding get_block
  get_block_metadata_value w p key = let found = get_block w p in (found.0, value_in key found.1)

  unfoldable pub set_block_metadata_value : World F → Vec2 → String → Value F → Option (World F)
  unfolding reach
  set_block_metadata_value w p key value =
      let found = reach_of w p in
      written found.0 (to_big_chunk_coords p) (to_chunk_coords p)
        (set_block_metadata_layer found.1 layer_active (local_in_chunk p) key value)

module _ {F : Type 0} (registry : Registry) (load : Vec2 → Entities F → Entities F)
    (generate : Vec2 → Chunk F) where
  unfoldable pub set_block_layer : World F → Vec2 → ℕ → Block F → Option (World F)
  unfolding reach
  set_block_layer w p layer b =
      let found = reach_of load generate w p in
      written found.0 (to_big_chunk_coords p) (to_chunk_coords p)
        (write_block_to registry found.1 layer (local_in_chunk p) b)

  unfoldable pub set_block : World F → Vec2 → Block F → Option (World F)
  unfolding set_block_layer
  set_block w p b = set_block_layer w p layer_active b

  unfoldable pub set_block_with_metadata : World F → Vec2 → ℕ → Metadata F → Option (World F)
  unfolding set_block
  set_block_with_metadata w p block_id metadata =
      set_block w p (record (new_block registry block_id) { payload = metadata })

  unfoldable pub remove_block : World F → Vec2 → Option (World F × Block F)
  unfolding get_block set_block
  remove_block w p =
      let found = get_block load generate w p in
      removed (set_block found.0 p (record { id = air_block_id; payload = [] })) found.1

module _ {F : Type 0} where
  abbrev chunk_loaded : Vec2 → Option (BigChunk F) → Bool
  chunk_loaded c none = false
  chunk_loaded c (some bc) = elim (lookup c bc.chunks) [ none ↦ false | some _ ↦ true ]

  unfoldable pub is_block_loaded : World F → Vec2 → Bool
  is_block_loaded w p =
      chunk_loaded (to_chunk_coords p) (lookup (to_big_chunk_coords p) w.big_chunks)
