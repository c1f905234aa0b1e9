-- ===== src/Entity/Npc/Life.antt =====
-- The methods of an NPC's behaviour: Update, OnSpawn, OnDamage, OnCollision and GetMoveSpeed of
-- internal/world/entity/npc.go. OnDespawn does nothing.
use mmo_game.Prelude.{
  ℕ, ℤ, pos, ◌-ℤ◌, wrap, leb_ℤ, String, Bool, true, false, not, ◌||◌, ◌&&◌, Option, none, some,
  List, [], ◌∷◌, if◌then◌else◌, ◌==◌, nat_eq, string_eq,
}
use mmo_game.Prelude.Outcome.{Outcome, done, asserted, ◌>>=◌}
use mmo_game.Vec.{Vec2}
use mmo_game.Vec.Float.{
  FloatOps, Vec2Float, from_vec2, to_vec2, add, sub, mul, normalized, distance_to, zero_vector,
}
use mmo_game.Entity.{
  Entity, EntityApi, Draws, int, int64, uint64, float, string, point, amounts, fetch, put, as_int,
  as_string, as_float, as_point, as_uint64,
}
use mmo_game.Entity.Steering.{calculate_direction}
use mmo_game.Entity.Npc.{
  NpcBehavior, idle_timer, started, rest_again, follow, end_action, find_player, find_id,
}

module _ {F W : Type 0} (ops : FloatOps F) (api : EntityApi F W) (nb : NpcBehavior F)
    (draws : Draws F) where
  -- A step, with no test for collisions.
  step_to : Entity F → Vec2Float F → F → Entity F
  unfolding mul add to_vec2 calculate_direction
  step_to e d dt =
      let v = mul ops d nb.base_speed in
      let p = add ops e.precise_pos (mul ops v dt) in
      record e {
        velocity = v;
        direction = calculate_direction ops d;
        precise_pos = p;
        position = to_vec2 ops p;
      }

  -- The Boolean says that Update returns at once.
  walk : Option Vec2 → Entity F → F → Entity F × Bool
  unfolding step_to rest_again distance_to from_vec2 normalized sub
  walk none e dt = (e, true)
  walk (some target) e dt =
      if ops.less (distance_to ops e.precise_pos (from_vec2 ops target)) (ops.lit 5 1)
      then (record (rest_again ops nb draws e) { velocity = zero_vector ops }, false)
      else (step_to e (normalized ops (sub ops (from_vec2 ops target) e.precise_pos)) dt, false)

  -- Near its target a trader may offer a trade.
  meet : W → ℕ → Outcome W
  meet w target_id =
      if nb.npc_type == "trader" && ops.less draws.offer (ops.lit 1 2)
      then api.send_message w target_id "trade_offer"
      else done w

  chase : W → ℕ → Entity F → F → Option (Entity F) → Outcome (W × Entity F × Bool)
  unfolding meet step_to rest_again distance_to normalized sub calculate_direction
  chase w target_id e dt none = done (w, rest_again ops nb draws e, true)
  chase w target_id e dt (some target) =
      let d = normalized ops (sub ops target.precise_pos e.precise_pos) in
      if ops.less (distance_to ops e.precise_pos target.precise_pos) (ops.lit 2 0)
      then (meet w target_id >>= λ w'. done (
        w',
        record e { velocity = zero_vector ops; direction = calculate_direction ops d },
        false,
      ))
      else done (w, step_to e d dt, false)

  -- getEntityByID looks for the target among the entities within 1000 of (0, 0).
  pursue : W → Option ℕ → Entity F → F → Outcome (W × Entity F × Bool)
  unfolding chase find_id
  pursue w none e dt = done (w, e, true)
  pursue w (some target_id) e dt =
      api.get_entities_in_range w (record { x = pos 0; y = pos 0 }) (ops.lit 1000 0)
      >>= λ (w', others). chase w' target_id e dt (find_id target_id others)

  go_on : W → Entity F → String → F → Outcome (W × Entity F × Bool)
  unfolding walk pursue fetch
  go_on w e state dt =
      if state == "idle"
      then done (w, record e { velocity = zero_vector ops }, false)
      else (if state == "moving"
          then (let (e', over) = walk (as_point (fetch "targetPosition" e)) e dt in
              done (w, e', over))
          else (if state == "following"
              then pursue w (as_uint64 (fetch "targetEntityID" e)) e dt
              else done (w, e, false)))

  noticed : Option ℕ → Entity F → Entity F
  unfolding put
  noticed none e = e
  noticed (some id) e = follow ops nb draws id (put "state" (string "following") e)

  -- Guards and traders follow the first player that they see.
  look_out : W → Entity F → String → Outcome (W × Entity F)
  unfolding noticed find_player
  look_out w e state =
      if (nb.npc_type == "guard" || nb.npc_type == "trader") && not (state == "following")
      then (api.get_entities_in_range w e.position nb.detection_radius >>= λ (w', others).
          done (w', noticed (find_player others) e))
      else done (w, e)

  act : W → Entity F → String → F → F → Outcome (W × Entity F)
  unfolding end_action go_on look_out put
  act w e state timer dt =
      if ops.at_most timer (ops.lit 0 0)
      then (end_action ops api nb draws w e state >>= λ (w', e'). look_out w' e' state)
      else (go_on w (put "actionTimer" (float timer) e) state dt >>= λ (w', e', over).
          if over then done (w', e') else look_out w' e' state)

  unfoldable pub update : W → Entity F → F → Outcome (W × Entity F)
  unfolding started act fetch
  update w e dt =
      let e' = started ops nb draws (fetch "actionTimer" e) e in
      asserted (as_string (fetch "state" e')) >>= λ state.
      (asserted (as_float (fetch "actionTimer" e')) >>= λ timer.
      act w e' state (ops.minus timer dt) dt)

-- makeTraderInventory and makeTraderPrices.
abbrev trader_inventory : List (String × ℤ)
trader_inventory =
    ("potion", pos 10) ∷ ("food", pos 20) ∷ ("material", pos 15) ∷ ("tool", pos 5) ∷ []

abbrev trader_prices : List (String × ℤ)
trader_prices = ("potion", pos 10) ∷ ("food", pos 5) ∷ ("material", pos 8) ∷ ("tool", pos 25) ∷ []

module _ {F : Type 0} (ops : FloatOps F) (nb : NpcBehavior F) (draws : Draws F) where
  equipped : Entity F → Entity F
  unfolding put
  equipped e =
      if nb.npc_type == "trader"
      then put "prices" (amounts trader_prices) (put "inventory" (amounts trader_inventory) e)
      else (if nb.npc_type == "guard"
          then put "armor" (int (pos 5)) (put "weapon" (string "sword") e)
          else e)

  unfoldable pub on_spawn : Entity F → Entity F
  unfolding equipped put
  on_spawn e = equipped (
      put "randomSeed" (int64 draws.now) (
        put "homePosition" (point e.position) (
          put "actionTimer" (float (idle_timer ops nb draws)) (
            put "state" (string "idle")
              (put "npcType" (string nb.npc_type) (put "health" (int nb.max_health) e))))))

  unfoldable pub flee_from : Option (Entity F) → Entity F → Entity F
  unfolding put to_vec2 add sub mul normalized
  flee_from none e = e
  flee_from (some source) e =
      let away = normalized ops (sub ops e.precise_pos source.precise_pos) in
      put "targetPosition"
        (point (to_vec2 ops (add ops e.precise_pos (mul ops away nb.wander_radius)))) e

  unfoldable pub strike_back : Option (Entity F) → Entity F → Entity F
  unfolding put
  strike_back none e = e
  strike_back (some source) e =
      put "actionTimer" (float (ops.lit 10 0))
        (put "targetEntityID" (uint64 source.id) (put "state" (string "attacking") e))

  -- Villagers flee, guards attack.
  unfoldable pub react : Option (Entity F) → Entity F → Entity F
  unfolding flee_from strike_back put
  react source e =
      if nb.npc_type == "villager"
      then flee_from source
          (put "actionTimer" (float (ops.lit 5 0)) (put "state" (string "fleeing") e))
      else (if nb.npc_type == "guard" then strike_back source e else e)

  unfoldable pub hurt : Option ℤ → Entity F → ℤ → Option (Entity F) → Entity F × Bool
  unfolding react put
  hurt none e damage source = (e, false)
  hurt (some health) e damage source =
      let left = wrap (health -ℤ damage) in
      if leb_ℤ left (pos 0)
      then (put "health" (int (pos 0)) e, true)
      else (react source (put "health" (int left) e), false)

  -- The result says whether the NPC died.
  unfoldable pub on_damage : Entity F → ℤ → Option (Entity F) → Entity F × Bool
  unfolding hurt fetch
  on_damage e damage source = hurt (as_int (fetch "health" e)) e damage source

  stopped : Option String → Entity F → Entity F
  unfolding rest_again
  stopped none e = e
  stopped (some state) e = if state == "moving" then rest_again ops nb draws e else e

  unfoldable pub on_collision : Entity F → Entity F
  unfolding stopped fetch
  on_collision e = stopped (as_string (fetch "state" e)) e
