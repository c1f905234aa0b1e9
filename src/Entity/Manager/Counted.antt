-- ===== src/Entity/Manager/Counted.antt =====
-- The manager's counter and the keys of its map, call by call.
pub mod Moves
use mmo_game.Prelude.{
  ℕ, Bool, ◌+◌, ◌%◌, ◌^◌, ◌≤◌, ◌<◌, String, Option, none, some, List, [], ◌∷◌, ◌≡◌, refl, ap, inl,
  inr, Bool-cases, Option-cases, subst, lookup, insert, length, All, All-insert, All-delete,
  All-lookup, lookup-insert_self, nat_eq, ltb, ltb→lt, arith,
}
use mmo_game.Prelude.Outcome.{Outcome, done, done-injective, >>=-eq-done, ◌>>=◌}
use mmo_game.Vec.{Vec2}
use mmo_game.Vec.Float.{FloatOps, Vec2Float}
use mmo_game.Block.{Registry}
use mmo_game.Entity.Manager.Movement.{
  process_movement, found as found_entity, moved, walk, write_found, settle,
}
use mmo_game.Entity.{Entity, EntityApi, Draws, MovementDirection, animal_type, new_entity}
use mmo_game.Entity.Behavior.{EntityBehavior, on_spawn}
use mmo_game.Entity.Identity.{SameEntity, on_spawn-same}
use mmo_game.Entity.Manager.{
  EntityManager, new_entity_manager, get_entity, get_behavior, write_entity, add_entity,
  despawn_entity, removed, spawn_entity, spawned, spawn_animal, animal_spawned, new_animal,
  register_behavior, update_each, update_entities, update_each, update_entities,
}

module _ {F : Type 0} where
  -- Every key of the map is at most the counter, which is at most a bound.
  abbrev pub AtMost : ℕ → ℕ × Entity F → Type 0
  AtMost n entry = entry.0 ≤ n

  pub record IsCounted (bound : ℕ) (em : EntityManager F) : Type 0 where
    pub keys : All (AtMost em.next_entity_id) em.entities
    pub bounded : em.next_entity_id ≤ bound

  pub raise : (m n : ℕ) (es : List (ℕ × Entity F)) → m ≤ n → All (AtMost m) es → All (AtMost n) es
  raise m n [] le h = tt
  raise m n (e ∷ es) le h = (omega arith, raise m n es le h.1)

  pub put_keyed :
      (m n id : ℕ) (e : Entity F) (es : List (ℕ × Entity F))
      → m ≤ n
      → id ≤ n
      → All (AtMost m) es
      → All (AtMost n) (insert id e es)
  put_keyed m n id e es le fits h = All-insert (AtMost n) id e es fits (raise m n es le h)

  pub unknown :
      (m id : ℕ) (es : List (ℕ × Entity F)) → m < id → All (AtMost m) es → lookup id es ≡ none
  unknown m id es lt h = elim (Option-cases (lookup id es)) [
    | inl e ↦ e
    | inr (e, found) ↦ absurd (omega (arith, All-lookup (AtMost m) id e es h found))
  ]

  pub weaken : {bound : ℕ} {em : EntityManager F} → IsCounted bound em → IsCounted (bound + 1) em
  weaken h = record { keys = h.keys; bounded = omega (arith, h.bounded) }

module _ {F : Type 0} (ops : FloatOps F) (format_uint : ℕ → String) where
  pub spawn-IsCounted :
      (bound : ℕ) (em : EntityManager F) (draws : Draws F) (kind : ℕ) (p : Vec2)
      → bound + 1 < 2 ^ 64
      → IsCounted bound em
      → IsCounted (bound + 1) (spawn_entity ops format_uint draws em kind p).0
  unfolding spawn_entity
  spawn-IsCounted bound em draws kind p high h =
      let n : (em.next_entity_id + 1) % 2 ^ 64 ≡ em.next_entity_id + 1 = omega arith in
      record {
        keys = put_keyed em.next_entity_id _ _ _ em.entities (omega arith) (omega arith) h.keys;
        bounded = omega arith;
      }

  animal-IsCounted :
      (bound : ℕ) (draws : Draws F) (o : Option (EntityBehavior F)) (em em' : EntityManager F)
      (e : Entity F) (id : ℕ)
      → e.id ≤ em.next_entity_id
      → IsCounted bound em
      → animal_spawned ops format_uint draws o em e ≡ done (em', id)
      → IsCounted bound em'
  unfolding animal_spawned write_entity
  animal-IsCounted bound draws none em em' e id le h q = cc
  animal-IsCounted bound draws (some b) em em' e id le h q =
      let same = on_spawn-same ops format_uint b draws e in
      subst (λ (m : EntityManager F). IsCounted bound m)
        (ap (λ (r : EntityManager F × ℕ). r.0) (done-injective q))
        (record {
          keys =
              put_keyed em.next_entity_id _ _ (on_spawn ops format_uint b draws e) em.entities
                (omega arith) (omega (arith, same.same_id)) h.keys;
          bounded = h.bounded;
        })

  pub animal_call-IsCounted :
      (bound : ℕ) (em em' : EntityManager F) (draws : Draws F) (kind : ℕ) (p : Vec2) (id : ℕ)
      → bound + 1 < 2 ^ 64
      → IsCounted bound em
      → spawn_animal ops format_uint draws em kind p ≡ done (em', id)
      → IsCounted (bound + 1) em'
  unfolding spawn_animal new_animal
  animal_call-IsCounted bound em em' draws kind p id high h spawns =
      let next = em.next_entity_id in
      let e = new_animal ops next kind p in
      let between : EntityManager F = record em {
        entities = insert next e em.entities;
        next_entity_id = (next + 1) % 2 ^ 64;
      } in
      let le : next ≤ (next + 1) % 2 ^ 64 = omega (arith, h.bounded) in
      let low : (next + 1) % 2 ^ 64 ≤ bound + 1 = omega (arith, h.bounded) in
      animal-IsCounted (bound + 1) draws (get_behavior em animal_type) between em' e id le
        (record {
          keys = put_keyed next ((next + 1) % 2 ^ 64) next e em.entities le le h.keys;
          bounded = low;
        })
        spawns

  pub adopt-IsCounted :
      (bound : ℕ) (em : EntityManager F) (e : Entity F)
      → 2 ^ 63 ≤ bound
      → bound + 1 < 2 ^ 64
      → e.id < 2 ^ 63
      → IsCounted bound em
      → IsCounted (bound + 1) (add_entity em e)
  unfolding add_entity
  adopt-IsCounted bound em e low high fits h = elim (Bool-cases (ltb e.id em.next_entity_id)) [
    | inl t ↦ rw t (record {
      keys =
          put_keyed em.next_entity_id em.next_entity_id e.id e em.entities (omega arith)
            (omega (arith, ltb→lt)) h.keys;
      bounded = omega (arith, h.bounded);
    })
    | inr f ↦ rw f (record {
      keys = put_keyed em.next_entity_id _ e.id e em.entities (ground arith) (omega arith) h.keys;
      bounded = omega (arith, h.bounded);
    })
  ]

  pub removed-IsCounted :
      (bound : ℕ) (o : Option (Entity F)) (em : EntityManager F) (id : ℕ)
      → IsCounted bound em
      → IsCounted bound (removed o em id).0
  unfolding removed
  removed-IsCounted bound none em id h = h
  removed-IsCounted bound (some e) em id h = record {
    keys = All-delete (AtMost em.next_entity_id) id em.entities h.keys;
    bounded = h.bounded;
  }
