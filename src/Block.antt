-- ===== src/Block.antt =====
-- Block types: internal/world/block (registry.go, behavior.go, api.go) and the names of the
-- behaviours under internal/world/block/implementations, whose methods are in the modules below.
-- `float64` is a type F with the conversions that the code makes; its values come from JSON.
pub mod Solid
pub mod Fluid
pub mod Grass
pub mod Dispatch
pub mod Interaction
use mmo_game.Prelude.{
  ℕ, ℤ, pos, ◌+ℤ◌, ◌-ℤ◌, wrap, String, Bool, true, false, Option, none, some, List, [], ◌∷◌, ◌≡◌,
  lookup, insert, if◌then◌else◌, ◌==◌, nat_eq, string_eq,
}
use mmo_game.Vec.{Vec2, vec2_eq}

-- The dynamic type of an `interface{}` value in a block's metadata.
pub data Value (F : Type 0) : Type 0 where
  int : ℤ → Value F
  float : F → Value F
  bool : Bool → Value F
  string : String → Value F
  opaque : ℕ → Value F

abbrev pub Metadata : Type 0 → Type 0
Metadata F = List (String × Value F)

-- The type assertions `v.(int)`, `v.(float64)` and `v.(string)`, on a value that may be missing.
abbrev pub as_int : {F : Type 0} → Option (Value F) → Option ℤ
as_int (some (int z)) = some z
as_int _ = none

abbrev pub as_float : {F : Type 0} → Option (Value F) → Option F
as_float (some (float f)) = some f
as_float _ = none

abbrev pub as_string : {F : Type 0} → Option (Value F) → Option String
as_string (some (string s)) = some s
as_string _ = none

pub record InteractionResult : Type 0 where
  pub success : Bool
  pub message : String
  pub effects : List String

-- What `HandleInteraction` returns: the block, its metadata, the result.
abbrev pub Interaction : Type 0 → Type 0
Interaction F = ℕ × Metadata F × InteractionResult

abbrev pub air_block_id : ℕ
air_block_id = 0

abbrev pub stone_block_id : ℕ
stone_block_id = 1

abbrev pub grass_block_id : ℕ
grass_block_id = 2

abbrev pub water_block_id : ℕ
water_block_id = 3

abbrev pub dirt_block_id : ℕ
dirt_block_id = 5

abbrev pub deep_water_block_id : ℕ
deep_water_block_id = 6

abbrev pub tree_block_id : ℕ
tree_block_id = 101

abbrev pub cactus_block_id : ℕ
cactus_block_id = 102

-- The types that implement `BlockBehavior`.
pub data Behavior : Type 0 where
  air stone grass water dirt deep_water tree cactus : Behavior
  simple : ℕ → String → Behavior

-- `block.Register` and `block.Get` on the map `registry`; a BlockID is a uint16.
abbrev pub Registry : Type 0
Registry = List (ℕ × Behavior)

unfoldable pub register : ℕ → Behavior → Registry → Registry
register id behavior registry = insert id behavior registry

unfoldable pub get : ℕ → Registry → Option Behavior
get id registry = lookup id registry

unfoldable pub is_valid_block_id : ℕ → Registry → Bool
unfolding get
is_valid_block_id id registry = elim (get id registry) [ none ↦ false | some _ ↦ true ]

-- What the behaviours ask of the world. W is the world's state.
pub record BlockApi (F : Type 0) (W : Type 0) : Type 0 where
  pub get_block_id : W → Vec2 → ℕ
  pub set_block : W → Vec2 → ℕ → W
  pub get_block_metadata : W → Vec2 → String → Option (Value F)
  pub set_block_metadata : W → Vec2 → String → Value F → W
  pub get_block_id_layer : W → ℕ → Vec2 → ℕ
  pub set_block_layer : W → ℕ → Vec2 → ℕ → W
  pub trigger_neighbor_updates : W → Vec2 → W

-- The four neighbours, in the order in which every behaviour visits them.
abbrev pub neighbors : Vec2 → List Vec2
neighbors p =
    record { x = wrap (p.x +ℤ pos 1); y = p.y }
    ∷ record { x = wrap (p.x -ℤ pos 1); y = p.y }
    ∷ record { x = p.x; y = wrap (p.y +ℤ pos 1) }
    ∷ record { x = p.x; y = wrap (p.y -ℤ pos 1) }
    ∷ []
