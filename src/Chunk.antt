-- ===== src/Chunk.antt =====
-- A chunk of 16 by 16 blocks on three layers: internal/world/chunk.go, layer.go and block.go.
-- The array Blocks3D is a function, and an index out of its range is the panic `none`.
pub mod Edits
pub mod Ticking
pub mod Changes
pub mod Payload
pub mod Cells
use mmo_game.Prelude.{
  ℕ, ◌%◌, ◌^◌, ℤ, pos, ◌+ℤ◌, wrap, ltb_ℤ, leb_ℤ, String, Bool, true, false, ◌&&◌, Option, none,
  some, List, [], ◌∷◌, ◌≡◌, ◌↔◌, lookup, insert, delete, if◌then◌else◌, ◌==◌, nat_eq, string_eq,
  EqTest, ltb, leb, arith,
}
use mmo_game.Vec.{Vec2, vec2_eq, vec2_beq, local_in_chunk}
use mmo_game.Block.{Value, Metadata, Behavior, simple, Registry, get}
use mmo_game.Block.Dispatch.{id, needs_tick, create_metadata}

-- BlockLayer is a uint8.
abbrev pub layer_floor : ℕ
layer_floor = 0

abbrev pub layer_active : ℕ
layer_active = 1

abbrev pub layer_ceiling : ℕ
layer_ceiling = 2

abbrev pub max_layers : ℕ
max_layers = 3

pub record BlockCoord : Type 0 where
  pub layer : ℕ
  pub position : Vec2

abbrev pub coord_beq : BlockCoord → BlockCoord → Bool
coord_beq a b = a.layer == b.layer && a.position == b.position

pub coord_beq_iff : (a b : BlockCoord) → (coord_beq a b ≡ true) ↔ (a ≡ b)
coord_beq_iff a b = (
  λ h. ground (arith, vec2_eq.test_iff a.position b.position),
  λ h. ground (arith, vec2_eq.test_iff a.position b.position),
)

instance abbrev pub coord_eq : EqTest BlockCoord
coord_eq = record { test = coord_beq; test_iff = coord_beq_iff }

-- A Go `map[BlockCoord]struct{}`.
abbrev pub CoordSet : Type 0
CoordSet = List (BlockCoord × Unit {0})

-- The metadata map of a block may be nil, which is `none`.
pub record Chunk (F : Type 0) : Type 0 where
  pub coords : Vec2
  pub blocks : BlockCoord → ℕ
  pub metadata : List (BlockCoord × Option (Metadata F))
  pub changes : CoordSet
  pub tickable : CoordSet
  pub change_counter : ℤ

-- The zero value of a BlockID is air.
unfoldable pub new_chunk : {F : Type 0} → Vec2 → Chunk F
new_chunk coords = record {
  coords = coords;
  blocks = λ c. 0;
  metadata = [];
  changes = [];
  tickable = [];
  change_counter = pos 0;
}

-- The index range of Blocks3D[layer].
abbrev pub in_range : Vec2 → Bool
in_range p = leb_ℤ (pos 0) p.x && ltb_ℤ p.x (pos 16) && leb_ℤ (pos 0) p.y && ltb_ℤ p.y (pos 16)

abbrev pub write_block : (BlockCoord → ℕ) → BlockCoord → ℕ → BlockCoord → ℕ
write_block blocks c block_id d = if coord_beq c d then block_id else blocks d

abbrev pub at : ℕ → Vec2 → BlockCoord
at layer p = record { layer = layer; position = p }

abbrev pub ticks : Option Behavior → Bool
ticks none = false
ticks (some behavior) = needs_tick behavior

abbrev pub set_member : Bool → BlockCoord → CoordSet → CoordSet
set_member present c s = if present then insert c tt s else delete c s

-- Reading a map that is missing or nil finds nothing; writing to one that is nil is a panic.
abbrev pub or_empty : {F : Type 0} → Option (Option (Metadata F)) → Metadata F
or_empty (some (some m)) = m
or_empty _ = []

abbrev pub is_nil : {F : Type 0} → Option (Option (Metadata F)) → Bool
is_nil (some none) = true
is_nil _ = false

-- What `CreateMetadata` returns: nil for a behaviour that was loaded from JSON.
abbrev pub created_map : {F : Type 0} → Behavior → Option (Metadata F)
created_map (simple n name) = none
created_map behavior = some (create_metadata behavior)

module _ {F : Type 0} where
  unfoldable pub get_block_layer : Chunk F → ℕ → Vec2 → Option ℕ
  get_block_layer c layer p =
      if leb max_layers layer
      then some 0
      else (if in_range p then some (c.blocks (at layer p)) else none)

  -- What `SetBlockLayer` does after its guards.
  write_layer : Registry → Chunk F → ℕ → Vec2 → ℕ → Chunk F
  write_layer registry c layer p block_id = record c {
    blocks = write_block c.blocks (at layer p) block_id;
    changes = insert (at layer p) tt c.changes;
    tickable =
        if layer == layer_active
        then set_member (ticks (get block_id registry)) (at layer p) c.tickable
        else c.tickable;
    change_counter = wrap (c.change_counter +ℤ pos 1);
  }

  unfoldable pub set_block_layer : Registry → Chunk F → ℕ → Vec2 → ℕ → Option (Chunk F)
  unfolding write_layer
  set_block_layer registry c layer p block_id =
      if leb max_layers layer
      then some c
      else (if in_range p then some (write_layer registry c layer p block_id) else none)

  unfoldable pub get_block : Chunk F → Vec2 → Option ℕ
  unfolding get_block_layer
  get_block c p = get_block_layer c layer_active p

  unfoldable pub set_block : Registry → Chunk F → Vec2 → ℕ → Option (Chunk F)
  unfolding set_block_layer
  set_block registry c p block_id = set_block_layer registry c layer_active p block_id

  created_metadata :
      Behavior
      → BlockCoord
      → List (BlockCoord × Option (Metadata F))
      → List (BlockCoord × Option (Metadata F))
  created_metadata behavior k m = elim (lookup k m) [
    | none ↦ insert k (created_map behavior) m
    | some _ ↦ m
  ]

  -- What `SetBlockWithBehavior` does when the index is in range.
  write_behavior : Chunk F → Vec2 → Behavior → Chunk F
  unfolding created_metadata
  write_behavior c p behavior = record c {
    blocks = write_block c.blocks (at layer_active p) (id behavior);
    changes = insert (at layer_active p) tt c.changes;
    change_counter = wrap (c.change_counter +ℤ pos 1);
    tickable = set_member (needs_tick behavior) (at layer_active p) c.tickable;
    metadata = created_metadata behavior (at layer_active p) c.metadata;
  }

  unfoldable pub set_block_with_behavior : Chunk F → Vec2 → Behavior → Option (Chunk F)
  unfolding write_behavior
  set_block_with_behavior c p behavior =
      if in_range p then some (write_behavior c p behavior) else none

  abbrev pub metadata_at : Chunk F → BlockCoord → Metadata F
  metadata_at c k = or_empty (lookup k c.metadata)

  -- What `SetBlockMetadataLayer` does when the map is not nil.
  write_note : Chunk F → ℕ → Vec2 → String → Value F → Chunk F
  write_note c layer p key value = record c {
    metadata =
        insert (at layer p) (some (insert key value (metadata_at c (at layer p)))) c.metadata;
    changes = insert (at layer p) tt c.changes;
    change_counter = wrap (c.change_counter +ℤ pos 1);
  }

  unfoldable pub set_block_metadata_layer : Chunk F → ℕ → Vec2 → String → Value F → Option (Chunk F)
  unfolding write_note
  set_block_metadata_layer c layer p key value =
      if is_nil (lookup (at layer p) c.metadata)
      then none
      else some (write_note c layer p key value)

  unfoldable pub get_block_metadata_layer : Chunk F → ℕ → Vec2 → Metadata F
  get_block_metadata_layer c layer p = metadata_at c (at layer p)

  unfoldable pub set_block_metadata : Chunk F → Vec2 → String → Value F → Option (Chunk F)
  unfolding set_block_metadata_layer
  set_block_metadata c p key value = set_block_metadata_layer c layer_active p key value

  unfoldable pub set_block_metadata_map : Chunk F → Vec2 → Metadata F → Option (Chunk F)
  unfolding set_block_metadata_layer
  set_block_metadata_map c p [] = some c
  set_block_metadata_map c p ((key, value) ∷ metadata) =
      elim (set_block_metadata_layer c layer_active p key value) [
        | none ↦ none
        | some c' ↦ set_block_metadata_map c' p metadata
      ]

  unfoldable pub get_block_metadata : Chunk F → Vec2 → Metadata F
  unfolding get_block_metadata_layer
  get_block_metadata c p = get_block_metadata_layer c layer_active p

  unfoldable pub get_block_metadata_value : Chunk F → Vec2 → String → Option (Value F)
  get_block_metadata_value c p key = lookup key (metadata_at c (at layer_active p))

  unfoldable pub has_changes : Chunk F → Bool
  has_changes c = ltb_ℤ (pos 0) c.change_counter

  unfoldable pub clear_changes : Chunk F → Chunk F
  clear_changes c = record c { changes = []; change_counter = pos 0 }
