-- ===== src/Entity.antt =====
-- Entities and what their behaviours ask of the world: internal/world/entity/entity.go. The
-- behaviours are in the modules Player, Animal and Npc, and the manager is in Manager. An entity
-- is a shared object; a method returns the entity as it leaves it.
pub mod Payload
pub mod Steering
pub mod Player
pub mod Animal
pub mod Npc
pub mod Behavior
pub mod Attack
pub mod Identity
pub mod Wounds
pub mod Manager
use mmo_game.Prelude.{
  ℕ, ℤ, pos, String, Bool, true, false, Option, none, some, List, [], ◌∷◌, lookup, insert,
  string_eq,
}
use mmo_game.Prelude.Outcome.{Outcome}
use mmo_game.Vec.{Vec2}
use mmo_game.Vec.Float.{FloatOps, Vec2Float, from_vec2, zero_vector}
use mmo_game.Block.{Value, Metadata}

-- EntityType is a uint16.
abbrev pub player_type : ℕ
player_type = 0

abbrev pub npc_type : ℕ
npc_type = 1

abbrev pub item_type : ℕ
item_type = 3

abbrev pub animal_type : ℕ
animal_type = 5

pub record MovementDirection : Type 0 where
  pub up : Bool
  pub right : Bool
  pub down : Bool
  pub left : Bool

-- The dynamic type of a value in an entity's payload. The maps are those that the behaviours
-- put there: map[string]int and map[string]interface{}.
pub data Datum (F : Type 0) : Type 0 where
  int : ℤ → Datum F
  int64 : ℤ → Datum F
  uint64 : ℕ → Datum F
  float : F → Datum F
  string : String → Datum F
  point : Vec2 → Datum F
  amounts : List (String × ℤ) → Datum F
  table : Metadata F → Datum F

abbrev pub Payload : Type 0 → Type 0
Payload F = List (String × Datum F)

pub record Entity (F : Type 0) : Type 0 where
  pub id : ℕ
  pub entity_type : ℕ
  pub position : Vec2
  pub precise_pos : Vec2Float F
  pub velocity : Vec2Float F
  pub size : Vec2Float F
  pub payload : Payload F
  pub active : Bool
  pub direction : ℤ

-- The hitbox is 0.8 by 0.8.
unfoldable pub new_entity : {F : Type 0} → FloatOps F → ℕ → ℕ → Vec2 → Entity F
unfolding from_vec2
new_entity ops id entity_type position = record {
  id = id;
  entity_type = entity_type;
  position = position;
  precise_pos = from_vec2 ops position;
  velocity = zero_vector ops;
  size = record { x = ops.lit 8 1; y = ops.lit 8 1 };
  payload = [];
  active = true;
  direction = pos 0;
}

module _ {F : Type 0} where
  -- The type assertions on a value that may be missing.
  abbrev pub as_int : Option (Datum F) → Option ℤ
  as_int (some (int z)) = some z
  as_int _ = none

  abbrev pub as_uint64 : Option (Datum F) → Option ℕ
  as_uint64 (some (uint64 n)) = some n
  as_uint64 _ = none

  abbrev pub as_float : Option (Datum F) → Option F
  as_float (some (float f)) = some f
  as_float _ = none

  abbrev pub as_string : Option (Datum F) → Option String
  as_string (some (string s)) = some s
  as_string _ = none

  abbrev pub as_point : Option (Datum F) → Option Vec2
  as_point (some (point p)) = some p
  as_point _ = none

  abbrev pub as_table : Option (Datum F) → Option (Metadata F)
  as_table (some (table m)) = some m
  as_table _ = none

  -- `entity.Payload[key]`, read and written.
  unfoldable pub fetch : String → Entity F → Option (Datum F)
  fetch key e = lookup key e.payload

  unfoldable pub put : String → Datum F → Entity F → Entity F
  put key value e = record e { payload = insert key value e.payload }

-- What the random draws of one call return, each at its place in the code, and the clock.
pub record Draws (F : Type 0) : Type 0 where
  pub first_timer : F
  pub timer : F
  pub angle : F
  pub distance : F
  pub offer : F
  pub now : ℤ

-- EntityAPI as far as the behaviours call it. W is the state of the rest of the server.
pub record EntityApi (F : Type 0) (W : Type 0) : Type 0 where
  pub get_block : W → Vec2 → Outcome (W × ℕ)
  pub set_block : W → Vec2 → ℕ → Outcome W
  pub get_block_metadata : W → Vec2 → String → Outcome (W × Option (Value F))
  pub set_block_metadata : W → Vec2 → String → Value F → Outcome W
  pub get_entities_in_range : W → Vec2 → F → Outcome (W × List (Entity F))
  pub send_message : W → ℕ → String → Outcome W
