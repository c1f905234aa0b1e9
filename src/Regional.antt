-- ===== src/Regional.antt =====
-- A regional node: internal/regional. `encoding/json` is the parameter `unmarshal`, a float64 is a
-- type F with the conversions and tests that the code makes, and `now` is the clock's value at
-- the call. Logging and the publication of the counters are left out.
pub mod Conflicts
pub mod Batches
use mmo_game.Prelude.{
  ℕ, ◌+◌, ◌*◌, ◌^◌, ℤ, pos, negsuc, ◌+ℤ◌, ◌-ℤ◌, ltb_ℤ, leb_ℤ, beq_ℤ, String, Bool, true, false,
  ◌&&◌, ◌||◌, Option, none, some, List, [], ◌∷◌, lookup, if◌then◌else◌, ◌==◌, string_eq,
}
use mmo_game.Block.{Value, Metadata, as_float, as_string}
use mmo_game.Sync.{Change, BatchManager, add_change, passthrough_decompress}

-- The parts of a change's JSON that the node reads.
pub record ChangeData (F : Type 0) : Type 0 where
  pub kind : String
  pub position : Metadata F
  pub fields : Metadata F

-- The tests on float64 that hasBlockConflict and hasEntityConflict make: int(x) == 0, x > 10000
-- and x < -10000.
pub record FloatTests (F : Type 0) : Type 0 where
  pub to_int : F → ℤ
  pub above_limit : F → Bool
  pub below_limit : F → Bool

pub record Conflict : Type 0 where
  pub local_change : Option Change
  pub remote_change : Option Change

-- `LWWResolver.Resolve`; a nil change is the panic `none`. Its error is always nil.
unfoldable pub resolve : Conflict → Option Change
resolve conflict = elim conflict.local_change [
  | none ↦ none
  | some local ↦ elim conflict.remote_change [
    | none ↦ none
    | some remote ↦ some (if ltb_ℤ local.timestamp remote.timestamp then remote else local)
  ]
]

-- The error of a call, or none.
abbrev Failure : Type 0
Failure = Option String

module _ {F : Type 0} where
  require_number : String → String → Metadata F → Failure → Failure
  require_number key message m next = elim (as_float (lookup key m)) [
    | none ↦ some message
    | some _ ↦ next
  ]

  require_string : String → String → Metadata F → Failure → Failure
  require_string key message m next = elim (as_string (lookup key m)) [
    | none ↦ some message
    | some _ ↦ next
  ]

  unfoldable pub apply_block_place : ChangeData F → Failure
  unfolding require_number require_string
  apply_block_place c = require_number "x" "invalid x coordinate" c.position (
      require_number "y" "invalid y coordinate" c.position (
        require_number "z" "invalid z coordinate" c.position
          (require_string "block_type" "invalid block_type" c.fields none)))

  unfoldable pub apply_block_break : ChangeData F → Failure
  unfolding require_number
  apply_block_break c = require_number "x" "invalid x coordinate" c.position (
      require_number "y" "invalid y coordinate" c.position
        (require_number "z" "invalid z coordinate" c.position none))

  unfoldable pub apply_entity_move : ChangeData F → Failure
  unfolding require_number require_string
  apply_entity_move c = require_string "entity_id" "invalid entity_id" c.fields (
      require_number "x" "invalid x coordinate" c.position
        (require_number "y" "invalid y coordinate" c.position none))

  unfoldable pub apply_chunk_load : ChangeData F → Failure
  unfolding require_number
  apply_chunk_load c =
      require_number "chunk_x" "invalid chunk_x" c.position
        (require_number "chunk_y" "invalid chunk_y" c.position none)

  apply_decoded : Option (ChangeData F) → Failure
  apply_decoded none = some "failed to decode change data"
  apply_decoded (some c) =
      if c.kind == "block_place"
      then apply_block_place c
      else (if c.kind == "block_break"
          then apply_block_break c
          else (if c.kind == "entity_move"
              then apply_entity_move c
              else (if c.kind == "chunk_load" then apply_chunk_load c else none)))

-- Durations, in nanoseconds.
abbrev pub second : ℤ
second = pos 1_000_000_000

abbrev pub minute : ℤ
minute = pos 60_000_000_000

abbrev pub five_minutes : ℤ
five_minutes = pos 300_000_000_000

pub record Node : Type 0 where
  pub region_id : String
  pub batch_manager : BatchManager
  pub local_changes : ℕ
  pub remote_changes : ℕ
  pub conflicts_resolved : ℕ

-- How a call ends: a panic of the process, an error, or success.
pub data Outcome : Type 0 where
  panicked : Outcome
  failed : String → Node → Outcome
  applied : Node → Outcome

module _ {F : Type 0} (floats : FloatTests F) (unmarshal : List ℕ → Option (ChangeData F)) where
  -- `WorldWrapper.ApplyChange`: so far it only checks the data.
  unfoldable pub apply_change : Change → Failure
  unfolding apply_decoded apply_block_place apply_block_break apply_entity_move apply_chunk_load
  apply_change change = apply_decoded (unmarshal change.data_bytes)

  near_spawn : Option F → Option F → Bool
  near_spawn (some x) (some y) = beq_ℤ (floats.to_int x) (pos 0) && beq_ℤ (floats.to_int y) (pos 0)
  near_spawn _ _ = false

  unfoldable pub has_block_conflict : ChangeData F → ℤ → ℤ → Bool
  unfolding near_spawn
  has_block_conflict c timestamp now =
      near_spawn (as_float (lookup "x" c.position)) (as_float (lookup "y" c.position))
      && ltb_ℤ (now -ℤ timestamp) second

  far_away : Option F → Option F → Bool
  far_away (some x) (some y) =
      floats.above_limit x || floats.above_limit y || floats.below_limit x || floats.below_limit y
  far_away _ _ = false

  unfoldable pub has_entity_conflict : ChangeData F → Bool
  unfolding far_away
  has_entity_conflict c =
      far_away (as_float (lookup "x" c.position)) (as_float (lookup "y" c.position))

  conflict_of : Option (ChangeData F) → ℤ → ℤ → Bool
  unfolding has_block_conflict has_entity_conflict
  conflict_of none timestamp now = false
  conflict_of (some c) timestamp now =
      if c.kind == "block_place" || c.kind == "block_break"
      then has_block_conflict c timestamp now
      else (if c.kind == "entity_move" then has_entity_conflict c else false)

  unfoldable pub has_conflict : ℤ → Change → Bool
  unfolding conflict_of
  has_conflict now change =
      if ltb_ℤ five_minutes (now -ℤ change.timestamp)
      then true
      else (if ltb_ℤ (now +ℤ minute) change.timestamp
          then true
          else conflict_of (unmarshal change.data_bytes) change.timestamp now)

  -- The part of `ApplyRemoteChange` behind the conflict: the change to apply, if no panic.
  apply_resolved : Node → Change → Outcome
  unfolding apply_change
  apply_resolved node change = elim (apply_change change) [
    | some message ↦ failed message node
    | none ↦ applied (record node { remote_changes = node.remote_changes + 1 })
  ]

  resolve_and_apply : Node → Option Change → Outcome
  unfolding apply_resolved
  resolve_and_apply node none = panicked
  resolve_and_apply node (some change) =
      apply_resolved (record node { conflicts_resolved = node.conflicts_resolved + 1 }) change

  -- The conflict that `ApplyRemoteChange` builds has no LocalChange.
  unfoldable pub apply_remote_change : ℤ → Node → Change → Outcome
  unfolding has_conflict resolve_and_apply apply_resolved resolve
  apply_remote_change now node change =
      if has_conflict now change
      then resolve_and_apply node
          (resolve (record { local_change = none; remote_change = some change }))
      else apply_resolved node change

  -- The loop of `handleSyncBatch`: an error is logged, a panic ends the process.
  apply_each : ℤ → Node → List Change → Option Node
  apply_each now node [] = some node
  apply_each now node (change ∷ changes) = elim (apply_remote_change now node change) [
    | panicked ↦ none
    | failed _ node' ↦ apply_each now node' changes
    | applied node' ↦ apply_each now node' changes
  ]

  unfoldable pub handle_sync_batch : ℤ → Node → String → List ℕ → Option Node
  unfolding apply_each
  handle_sync_batch now node source payload =
      if source == node.region_id
      then some node
      else apply_each now node (passthrough_decompress payload)

unfoldable pub broadcast_local_change : ℤ → Node → Change → Node
broadcast_local_change now node change = record node {
  batch_manager =
      add_change node.batch_manager
        (record change { source_region = node.region_id; timestamp = now });
  local_changes = node.local_changes + 1;
}
