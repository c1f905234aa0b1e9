-- ===== src/Entity/Identity.antt =====
-- What OnSpawn leaves alone: which entity it is.
use mmo_game.Prelude.{ℕ, String, ◌≡◌, refl, inl, inr, Bool-cases, Option-cases, ◌==◌, string_eq}
use mmo_game.Vec.Float.{FloatOps}
use mmo_game.Entity.{Entity, Draws, fetch, put}
use mmo_game.Entity.Player.{on_spawn as spawn_player}
use mmo_game.Entity.Animal.{AnimalBehavior, init_animal_data, fill_animal_data}
use mmo_game.Entity.Animal.Life.{on_spawn as spawn_animal}
use mmo_game.Entity.Npc.{NpcBehavior}
use mmo_game.Entity.Npc.Life.{on_spawn as spawn_npc}
use mmo_game.Entity.Behavior.{EntityBehavior, player, npc, animal, on_spawn}

module _ {F : Type 0} where
  pub record SameEntity (e e' : Entity F) : Type 0 where
    pub same_id : e'.id ≡ e.id
    pub same_type : e'.entity_type ≡ e.entity_type
    pub same_position : e'.position ≡ e.position
    pub same_active : e'.active ≡ e.active

module _ {F : Type 0} (ops : FloatOps F) where
  animal-same :
      (ab : AnimalBehavior F) (draws : Draws F) (e : Entity F)
      → SameEntity e (init_animal_data ops ab draws e)
  unfolding init_animal_data fill_animal_data put
  animal-same ab draws e = elim (Option-cases (fetch "animalType" e)) [
    | inl h ↦
        rw h (record { same_id = refl; same_type = refl; same_position = refl; same_active = refl })
    | inr (v, h) ↦
        rw h (record { same_id = refl; same_type = refl; same_position = refl; same_active = refl })
  ]

  npc-same :
      (nb : NpcBehavior F) (draws : Draws F) (e : Entity F)
      → SameEntity e (spawn_npc ops nb draws e)
  unfolding spawn_npc put
  npc-same nb draws e = elim (Bool-cases (nb.npc_type == "trader")) [
    | inl t ↦
        rw t (record { same_id = refl; same_type = refl; same_position = refl; same_active = refl })
    | inr f ↦ rw f (elim (Bool-cases (nb.npc_type == "guard")) [
      | inl t ↦
          rw t
            (record { same_id = refl; same_type = refl; same_position = refl; same_active = refl })
      | inr f' ↦
          rw f'
            (record { same_id = refl; same_type = refl; same_position = refl; same_active = refl })
    ])
  ]

  pub on_spawn-same :
      (format_uint : ℕ → String) (b : EntityBehavior F) (draws : Draws F) (e : Entity F)
      → SameEntity e (on_spawn ops format_uint b draws e)
  unfolding on_spawn spawn_player spawn_animal put
  on_spawn-same format_uint (player pb) draws e = record {
    same_id = refl;
    same_type = refl;
    same_position = refl;
    same_active = refl;
  }
  on_spawn-same format_uint (npc nb) draws e = npc-same nb draws e
  on_spawn-same format_uint (animal ab) draws e = animal-same ab draws e
