-- ===== src/BigChunk/Pending.antt =====
-- One event of an entity that waits in a BigChunk's channel.
use mmo_game.Prelude.{
  ℕ, none, some, List, [], ◌∷◌, ◌≡◌, ◌≢◌, refl, ap, ◌∙◌, inl, inr, beq_cases, beq_self, lookup,
  insert, delete, lookup-insert_self, lookup-delete, nat_eq,
}
use mmo_game.Block.{Registry}
use mmo_game.Events.{
  nothing, entity, Kept, known, EntityEvent, entity_spawn, entity_despawn, entity_event,
}
use mmo_game.BigChunk.{BigChunk, Send, finished}
use mmo_game.BigChunk.Handle.{
  process_pending_events, handle_all, handle_event, handle_entity_event, handle_entity_kind,
  spawn_entity, despawn_entity, spawned, spawn_id, kind_of, copied, confirm,
}

module _ {F : Type 0} (registry : Registry) (random_id : EntityEvent F → ℕ) where
  -- An event that asks for an entity to go, with nothing else waiting, removes it.
  pub despawn_one :
      (bc : BigChunk F) (e : EntityEvent F) (d : Kept F)
      → e.event_type ≡ entity_despawn
      → lookup e.entity_id bc.entities ≡ some d
      → (bc' : BigChunk F) × (sent : List (Send F)) × (process_pending_events registry random_id
            (record bc { events_in = entity_event e ∷ [] })
          ≡ finished bc' sent)
        × (lookup e.entity_id bc'.entities ≡ none)
  unfolding process_pending_events handle_all handle_event handle_entity_event handle_entity_kind
      despawn_entity
  despawn_one bc e d asks there = (
    record bc { events_in = []; entities = delete e.entity_id bc.entities },
    confirm random_id entity_despawn e.entity_id e.position nothing ∷ [],
    rw (asks, there) refl,
    lookup-delete e.entity_id e.entity_id bc.entities ∙ rw (beq_self nat_eq e.entity_id) refl,
  )

  pub spawn_id-real : (e : EntityEvent F) → e.entity_id ≢ 0 → spawn_id random_id e ≡ e.entity_id
  spawn_id-real e real = elim (beq_cases nat_eq e.entity_id 0) [
    | inl (t, zero_id) ↦ absurd (real zero_id)
    | inr f ↦ rw f refl
  ]

  -- An event that asks for an entity to come, with nothing else waiting, adds it as the event says.
  pub spawn_one :
      (bc : BigChunk F) (e : EntityEvent F)
      → e.event_type ≡ entity_spawn
      → e.entity_id ≢ 0
      → (bc' : BigChunk F) × (sent : List (Send F)) × (process_pending_events registry random_id
            (record bc { events_in = entity_event e ∷ [] })
          ≡ finished bc' sent)
        × (lookup e.entity_id bc'.entities
            ≡ some (
                known (record {
                  id = e.entity_id;
                  kind = kind_of e.contents;
                  position = e.position;
                  metadata = copied e.contents;
                })))
  unfolding process_pending_events handle_all handle_event handle_entity_event handle_entity_kind
      spawn_entity
  spawn_one bc e asks real =
      let d = spawned random_id e in
      let same : spawn_id random_id e ≡ e.entity_id = spawn_id-real e real in
      (
        record bc {
          events_in = [];
          entities = insert (spawn_id random_id e) (known d) bc.entities;
        },
        confirm random_id entity_spawn (spawn_id random_id e) e.position (entity d) ∷ [],
        rw asks refl,
        ap (λ (n : ℕ). lookup e.entity_id (insert n (known (record d { id = n })) bc.entities)) same
            ∙ lookup-insert_self e.entity_id (known (record d { id = e.entity_id })) bc.entities,
      )
