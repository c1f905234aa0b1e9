-- ===== src/Entity/Manager.antt =====
-- The manager of entities: internal/world/entity/manager.go. Its entities are shared objects that
-- are in its map; what a behaviour changes is written back. `draws` gives the random draws of an
-- entity's call by its id. Movement is in the module of that name.
pub mod Movement
pub mod Counted
pub mod Ids
pub mod Clash
pub mod Updates
pub mod Bare
use mmo_game.Prelude.{
  ℕ, suc, ◌+◌, ◌%◌, ◌^◌, ltb, String, Bool, true, false, not, ◌&&◌, Option, none, some, List, [],
  ◌∷◌, ℤ, pos, lookup, insert, delete, length, if◌then◌else◌, ◌==◌, nat_eq, string_eq,
}
use mmo_game.Prelude.Outcome.{Outcome, panicked, done, ◌>>=◌}
use mmo_game.Vec.{Vec2}
use mmo_game.Vec.Float.{FloatOps, from_vec2, distance_to, zero_vector}
use mmo_game.Entity.{Entity, EntityApi, Draws, int, new_entity, player_type, npc_type, animal_type}
use mmo_game.Entity.Player.{new_player_behavior}
use mmo_game.Entity.Npc.{new_npc_behavior}
use mmo_game.Entity.Animal.{new_animal_behavior, cow, sheep, chicken, pig}
use mmo_game.Entity.Behavior.{EntityBehavior, player, npc, animal, update, on_spawn}

pub record EntityManager (F : Type 0) : Type 0 where
  pub entities : List (ℕ × Entity F)
  pub behaviors : List (ℕ × EntityBehavior F)
  pub next_entity_id : ℕ

module _ {F : Type 0} where
  abbrev pub new_entity_manager : EntityManager F
  new_entity_manager = record { entities = []; behaviors = []; next_entity_id = 1 }

  unfoldable pub register_behavior : ℕ → EntityBehavior F → EntityManager F → EntityManager F
  register_behavior kind b em = record em { behaviors = insert kind b em.behaviors }

  unfoldable pub get_entity : EntityManager F → ℕ → Option (Entity F)
  get_entity em id = lookup id em.entities

  unfoldable pub get_behavior : EntityManager F → ℕ → Option (EntityBehavior F)
  get_behavior em kind = lookup kind em.behaviors

  -- The object in the map under its id is replaced by what a method has made of it.
  unfoldable pub write_entity : EntityManager F → Entity F → EntityManager F
  write_entity em e = record em { entities = insert e.id e em.entities }

  -- An entity whose id is chosen outside; one with the same id is overwritten.
  unfoldable pub add_entity : EntityManager F → Entity F → EntityManager F
  add_entity em e = record em {
    entities = insert e.id e em.entities;
    next_entity_id = if ltb e.id em.next_entity_id then em.next_entity_id else (e.id + 1) % 2 ^ 64;
  }

  unfoldable pub removed : Option (Entity F) → EntityManager F → ℕ → EntityManager F × Bool
  removed none em id = (em, false)
  removed (some e) em id = (record em { entities = delete id em.entities }, true)

  -- No behaviour does anything in OnDespawn.
  unfoldable pub despawn_entity : EntityManager F → ℕ → EntityManager F × Bool
  unfolding removed
  despawn_entity em id = removed (lookup id em.entities) em id

module _ {F : Type 0} (ops : FloatOps F) where
  unfoldable pub register_default_behaviors : EntityManager F → EntityManager F
  unfolding register_behavior
  register_default_behaviors em =
      register_behavior animal_type (animal (new_animal_behavior ops pig)) (
        register_behavior animal_type (animal (new_animal_behavior ops chicken)) (
          register_behavior animal_type (animal (new_animal_behavior ops sheep)) (
            register_behavior animal_type (animal (new_animal_behavior ops cow)) (
              register_behavior npc_type (npc (new_npc_behavior ops "guard")) (
                register_behavior npc_type (npc (new_npc_behavior ops "trader")) (
                  register_behavior npc_type (npc (new_npc_behavior ops "villager"))
                    (register_behavior player_type (player (new_player_behavior ops)) em)))))))

  abbrev pub spawned : (ℕ → String) → Option (EntityBehavior F) → Draws F → Entity F → Entity F
  spawned format_uint none draws e = e
  spawned format_uint (some b) draws e = on_spawn ops format_uint b draws e

  -- The counter is raised first, and the new value is the id.
  unfoldable pub spawn_entity :
      (ℕ → String) → Draws F → EntityManager F → ℕ → Vec2 → EntityManager F × ℕ
  unfolding get_behavior
  spawn_entity format_uint draws em kind p =
      let id = (em.next_entity_id + 1) % 2 ^ 64 in
      let e = spawned format_uint (get_behavior em kind) draws (new_entity ops id kind p) in
      (record em { entities = insert id e em.entities; next_entity_id = id }, id)

  -- An animal's payload has the kind from the start, and its hitbox has no size.
  abbrev pub new_animal : ℕ → ℕ → Vec2 → Entity F
  unfolding from_vec2
  new_animal id kind p = record {
    id = id;
    entity_type = animal_type;
    position = p;
    precise_pos = from_vec2 ops p;
    velocity = zero_vector ops;
    size = zero_vector ops;
    payload = ("animalType", int (pos kind)) ∷ [];
    active = true;
    direction = pos 0;
  }

  animal_spawned :
      (ℕ → String)
      → Draws F
      → Option (EntityBehavior F)
      → EntityManager F
      → Entity F
      → Outcome (EntityManager F × ℕ)
  unfolding write_entity
  animal_spawned format_uint draws none em e = panicked
  animal_spawned format_uint draws (some b) em e =
      done (write_entity em (on_spawn ops format_uint b draws e), e.id)

  -- Here the counter is read first and raised afterwards.
  unfoldable pub spawn_animal :
      (ℕ → String) → Draws F → EntityManager F → ℕ → Vec2 → Outcome (EntityManager F × ℕ)
  unfolding animal_spawned get_behavior
  spawn_animal format_uint draws em kind p =
      let e = new_animal em.next_entity_id kind p in
      animal_spawned format_uint draws (get_behavior em animal_type)
        (record em {
          entities = insert e.id e em.entities;
          next_entity_id = (em.next_entity_id + 1) % 2 ^ 64;
        })
        e

  in_range : Vec2 → F → List (ℕ × Entity F) → List (Entity F)
  unfolding distance_to from_vec2
  in_range center radius [] = []
  in_range center radius ((id, e) ∷ es) =
      let rest = in_range center radius es in
      if e.active && ops.at_most (distance_to ops (from_vec2 ops center) e.precise_pos) radius
      then e ∷ rest
      else rest

  unfoldable pub get_entities_in_range : EntityManager F → Vec2 → F → List (Entity F)
  unfolding in_range
  get_entities_in_range em center radius = in_range center radius em.entities

module _ {F W : Type 0} (ops : FloatOps F) (api : EntityApi F W) (draws : ℕ → Draws F) where
  unfoldable pub update_one :
      Option (EntityBehavior F) → Bool → W → Entity F → F → Outcome (W × Entity F)
  update_one (some b) true w e dt = update ops api b (draws e.id) w e dt
  update_one _ _ w e dt = done (w, e)

  -- The loop over the map.
  unfoldable pub update_each :
      List (ℕ × EntityBehavior F) → W → List (ℕ × Entity F) → F → Outcome (W × List (ℕ × Entity F))
  unfolding update_one
  update_each behaviors w [] dt = done (w, [])
  update_each behaviors w ((id, e) ∷ es) dt =
      update_one (lookup e.entity_type behaviors) e.active w e dt >>= λ (w', e').
      (update_each behaviors w' es dt >>= λ (w'', es'). done (w'', (id, e') ∷ es'))

  -- The lock is held for all of the loop; what the API takes it for is the API's outcome.
  unfoldable pub update_entities : W → EntityManager F → F → Outcome (W × EntityManager F)
  unfolding update_each
  update_entities w em dt = update_each em.behaviors w em.entities dt >>= λ (w', es).
      done (w', record em { entities = es })

count_of : Option ℕ → ℕ
count_of none = 0
count_of (some n) = n

module _ {F : Type 0} where
  actives : List (ℕ × Entity F) → ℕ
  actives [] = 0
  actives ((id, e) ∷ es) = let rest = actives es in if e.active then suc rest else rest

  -- How many active entities there are of each type.
  type_stats : List (ℕ × Entity F) → List (ℕ × ℕ)
  unfolding count_of
  type_stats [] = []
  type_stats ((id, e) ∷ es) =
      let rest = type_stats es in
      if e.active
      then insert e.entity_type (suc (count_of (lookup e.entity_type rest))) rest
      else rest

  -- The number of entities, of active ones and of behaviours, and the active ones by type, of
  -- GetStats.
  unfoldable pub get_stats : EntityManager F → ℕ × ℕ × List (ℕ × ℕ) × ℕ
  unfolding actives type_stats
  get_stats em =
      (length em.entities, actives em.entities, type_stats em.entities, length em.behaviors)
