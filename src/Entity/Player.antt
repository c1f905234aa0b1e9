-- ===== src/Entity/Player.antt =====
-- Players: internal/world/entity/player.go; Attack is in the module of that name. The inventory is
-- a map in the payload. `format_uint` is strconv.FormatUint in base 10. OnDespawn and OnCollision
-- do nothing.
use mmo_game.Prelude.{
  ℕ, ℤ, pos, ◌+ℤ◌, ◌-ℤ◌, wrap, leb_ℤ, String, Bool, true, false, Option, none, some, lookup, insert,
  [], if◌then◌else◌, string_eq,
}
use Prim.Native.String.{◌++◌}
use mmo_game.Vec.Float.{FloatOps}
use mmo_game.Block.{Value, Metadata, as_int as value_int}
use mmo_game.Entity.{Entity, int, float, string, table, fetch, put, as_int, as_float, as_table}

pub record PlayerBehavior (F : Type 0) : Type 0 where
  pub base_speed : F
  pub max_health : ℤ
  pub inventory_size : ℤ
  pub attack_range : F
  pub attack_damage : ℤ
  pub attack_cooldown : F

module _ {F : Type 0} (ops : FloatOps F) where
  unfoldable pub new_player_behavior : PlayerBehavior F
  new_player_behavior = record {
    base_speed = ops.lit 5 0;
    max_health = pos 100;
    inventory_size = pos 36;
    attack_range = ops.lit 15 1;
    attack_damage = pos 10;
    attack_cooldown = ops.lit 5 1;
  }

  cooled : Option F → Entity F → F → Entity F
  unfolding put
  cooled none e dt = e
  cooled (some cooldown) e dt =
      if ops.less (ops.lit 0 0) cooldown
      then put "attackCooldown" (float (ops.minus cooldown dt)) e
      else e

  unfoldable pub update : Entity F → F → Entity F
  unfolding cooled fetch
  update e dt = cooled (as_float (fetch "attackCooldown" e)) e dt

  unfoldable pub on_spawn : (ℕ → String) → PlayerBehavior F → Entity F → Entity F
  unfolding put
  on_spawn format_uint pb e = put "lastAttackTime" (float (ops.lit 0 0)) (
      put "attackCooldown" (float (ops.lit 0 0)) (
        put "username" (string ("Player" ++ format_uint e.id)) (
          put "level" (int (pos 1)) (
            put "experience" (int (pos 0))
              (put "inventory" (table []) (put "health" (int pb.max_health) e))))))

count_in : Option ℤ → ℤ
count_in none = pos 0
count_in (some n) = n

added_count : Option ℤ → ℤ → ℤ
added_count none count = count
added_count (some current) count = wrap (current +ℤ count)

module _ {F : Type 0} where
  unfoldable pub hurt : Option ℤ → Entity F → ℤ → Entity F × Bool
  unfolding put
  hurt none e damage = (e, false)
  hurt (some health) e damage =
      let left = wrap (health -ℤ damage) in
      if leb_ℤ left (pos 0)
      then (put "health" (int (pos 0)) e, true)
      else (put "health" (int left) e, false)

  -- The result says whether the player died.
  unfoldable pub on_damage : Entity F → ℤ → Entity F × Bool
  unfolding hurt fetch
  on_damage e damage = hurt (as_int (fetch "health" e)) e damage

  added_to : Option (Metadata F) → Entity F → String → ℤ → Entity F × Bool
  unfolding added_count put
  added_to none e item count = (e, false)
  added_to (some inventory) e item count = (
    put "inventory"
        (table (
          insert item (Value.int (added_count (value_int (lookup item inventory)) count))
            inventory))
        e,
    true,
  )

  unfoldable pub add_item_to_inventory : Entity F → String → ℤ → Entity F × Bool
  unfolding added_to fetch
  add_item_to_inventory e item count = added_to (as_table (fetch "inventory" e)) e item count

  item_in : Option (Metadata F) → String → ℤ
  unfolding count_in
  item_in none item = pos 0
  item_in (some inventory) item = count_in (value_int (lookup item inventory))

  unfoldable pub get_inventory_item : Entity F → String → ℤ
  unfolding item_in fetch
  get_inventory_item e item = item_in (as_table (fetch "inventory" e)) item
