-- ===== src/Entity/Manager/Clash.antt =====
-- SpawnEntity raises the counter of ids before it reads it, and SpawnAnimal after.
use mmo_game.Prelude.{
  ℕ, ◌+◌, ◌%◌, ◌^◌, String, some, List, ◌≡◌, sym, subst, ◌∙◌, lookup, insert, length,
  lookup-insert_self, length-insert, nat_eq,
}
use mmo_game.Prelude.Outcome.{done}
use mmo_game.Vec.{Vec2}
use mmo_game.Vec.Float.{FloatOps}
use mmo_game.Entity.{Entity, Draws, animal_type, new_entity}
use mmo_game.Entity.Behavior.{EntityBehavior, on_spawn}
use mmo_game.Entity.Identity.{on_spawn-same}
use mmo_game.Entity.Manager.{
  EntityManager, get_entity, get_behavior, write_entity, spawn_entity, spawned, spawn_animal,
  animal_spawned, new_animal,
}

-- A write of a key that is there.
length_again :
    {V : Type 0} (k : ℕ) (v old : V) (m : List (ℕ × V))
    → lookup k m ≡ some old
    → length (insert k v m) ≡ length m
length_again k v old m there = length-insert k v m ∙ rw there

module _ {F : Type 0} (ops : FloatOps F) (format_uint : ℕ → String) where
  -- An animal that SpawnAnimal creates right after SpawnEntity has created an entity gets the same
  -- id and takes its place: the map has the animal under that id, and as many entities as before.
  pub spawn_animal-overwrites :
      (em : EntityManager F) (draws draws' : Draws F) (kind breed : ℕ) (p q : Vec2)
      (b : EntityBehavior F)
      → get_behavior em animal_type ≡ some b
      → let r = spawn_entity ops format_uint draws em kind p in
        (em' : EntityManager F) × (spawn_animal ops format_uint draws' r.0 breed q
          ≡ done (em', r.1))
        × (e : Entity F) × (get_entity em' r.1 ≡ some e)
        × (e.entity_type ≡ animal_type)
        × (e.position ≡ q)
        × (length em'.entities ≡ length (r.0).entities)
  unfolding spawn_entity spawn_animal animal_spawned get_entity get_behavior write_entity new_animal
  spawn_animal-overwrites em draws draws' kind breed p q b has =
      let id = (em.next_entity_id + 1) % 2 ^ 64 in
      let first =
        insert id (spawned ops format_uint (get_behavior em kind) draws (new_entity ops id kind p))
          em.entities in
      let e = new_animal ops id breed q in
      let x = on_spawn ops format_uint b draws' e in
      let same = on_spawn-same ops format_uint b draws' e in
      let second = insert id e first in
      let there : lookup x.id second ≡ some e =
        subst (λ (k : ℕ). lookup k second ≡ some e) (sym same.same_id)
          (lookup-insert_self id e first) in
      (
        record em { entities = insert x.id x second; next_entity_id = (id + 1) % 2 ^ 64 },
        rw has (λ i. done (
          record em { entities = insert x.id x second; next_entity_id = (id + 1) % 2 ^ 64 },
          id,
        )),
        x,
        subst (λ (k : ℕ). lookup k (insert x.id x second) ≡ some x) same.same_id
            (lookup-insert_self x.id x second),
        same.same_type,
        same.same_position,
        length_again x.id x e second there
            ∙ length_again id e _ first (lookup-insert_self id _ em.entities),
      )
