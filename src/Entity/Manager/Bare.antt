-- ===== src/Entity/Manager/Bare.antt =====
-- What SpawnAnimal leaves out, and the next UpdateEntities asks for.
use mmo_game.Prelude.{
  ℕ, ◌+◌, ◌%◌, ◌^◌, String, some, List, ◌≡◌, ◌≢◌, refl, ap, ◌∙◌, lookup, insert, lookup-insert_self,
  nat_eq,
}
use mmo_game.Prelude.Outcome.{Outcome, panicked, done}
use mmo_game.Vec.{Vec2}
use mmo_game.Vec.Float.{FloatOps}
use mmo_game.Entity.{EntityApi, Draws, animal_type, fetch}
use mmo_game.Entity.Animal.{new_animal_behavior, pig, init_animal_data}
use mmo_game.Entity.Animal.Life.{
  update_filled, update as update_animal, on_spawn as spawn_as_animal,
}
use mmo_game.Entity.Behavior.{EntityBehavior, animal, on_spawn, update}
use mmo_game.Entity.Manager.{
  EntityManager, get_entity, get_behavior, write_entity, register_default_behaviors, new_animal,
  animal_spawned, spawn_animal, update_entities,
}
use mmo_game.Entity.Manager.Updates.{Fails, update_entities-Fails, default_animal}

module _ {F W : Type 0} (ops : FloatOps F) (api : EntityApi F W) (format_uint : ℕ → String) where
  -- The payload has the animal's kind, and so it is not filled, and no hunger, which is a panic.
  bare_animal-panics :
      (draws : Draws F) (w : W) (id breed : ℕ) (p : Vec2) (dt : F)
      → update ops api (animal (new_animal_behavior ops pig)) draws w (new_animal ops id breed p) dt
        ≡ panicked
  unfolding update update_animal init_animal_data update_filled new_animal fetch lookup
  bare_animal-panics draws w id breed p dt = refl

  panicked-Fails : {A : Type 0} (o : Outcome A) → o ≡ panicked → Fails o
  panicked-Fails o h a e = cc

  -- With the default behaviours, an animal that SpawnAnimal has created, of whatever kind, makes
  -- the next UpdateEntities panic or block before it returns, whatever the state of the world.
  pub spawn_animal-Fails :
      (em em₀ : EntityManager F) (draws : Draws F) (each : ℕ → Draws F) (breed : ℕ) (p : Vec2)
      (w : W) (dt : F) (r : W × EntityManager F)
      → em.behaviors ≡ (register_default_behaviors ops em₀).behaviors
      → (em' : EntityManager F) × (spawn_animal ops format_uint draws em breed p
          ≡ done (em', em.next_entity_id))
        × (update_entities ops api each w em' dt ≢ done r)
  unfolding spawn_animal animal_spawned get_entity get_behavior write_entity on_spawn
      spawn_as_animal init_animal_data fetch new_animal lookup
  spawn_animal-Fails em em₀ draws each breed p w dt r default =
      let id = em.next_entity_id in
      let e = new_animal ops id breed p in
      let b : EntityBehavior F = animal (new_animal_behavior ops pig) in
      let behaves : lookup animal_type em.behaviors ≡ some b =
        ap (λ (bs : List (ℕ × EntityBehavior F)). lookup animal_type bs) default
        ∙ default_animal ops em₀ in
      let em' : EntityManager F = record em {
        entities = insert id e (insert id e em.entities);
        next_entity_id = (id + 1) % 2 ^ 64;
      } in
      (
        em',
        rw behaves refl,
        update_entities-Fails ops api each w em' id e b dt
            (lookup-insert_self id e (insert id e em.entities)) behaves refl
            (λ w'. panicked-Fails _ (bare_animal-panics (each id) w' id breed p dt)) r,
      )
