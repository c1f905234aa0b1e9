-- ===== src/World/Echo.antt =====
-- A spawned entity: the confirmation that its BigChunk sends is a spawn event again.
use mmo_game.Prelude.{
  ℕ, zero, suc, Bool, some, [], ◌∷◌, ◌≡◌, ◌≢◌, refl, ap, ◌∙◌, lookup, insert, lookup-insert_self,
  nat_eq,
}
use mmo_game.Vec.{Vec2, vec2_eq, to_big_chunk_coords}
use mmo_game.Block.{Registry}
use mmo_game.Events.{
  EntityData, known, entity, EntityEvent, EventType, entity_spawn, Entities, Event, entity_event,
  offer,
}
use mmo_game.BigChunk.{BigChunk, zero_coords, wait, finished}
use mmo_game.BigChunk.Handle.{
  then_run, process_pending_events, handle_all, handle_event, handle_entity_event,
  handle_entity_kind, spawn_entity, confirm, kind_of, copied,
}
use mmo_game.BigChunk.Pending.{spawn_id-real}
use mmo_game.World.{World, store}
use mmo_game.World.Route.{deliver, process_global_event, routed, route_entity_event}
use mmo_game.World.Drive.{run_big_chunk, run_found, after_run, send_out, round, rounds}
use mmo_game.World.Handover.{send_to_lem, blank}

module _ {F : Type 0} where
  -- The entity that a spawn event makes.
  abbrev pub made : EntityEvent F → EntityData F
  made e = record {
    id = e.entity_id;
    kind = kind_of e.contents;
    position = e.position;
    metadata = copied e.contents;
  }

  -- The confirmation.
  abbrev pub echo : EntityEvent F → EntityEvent F
  echo e = record {
    event_type = entity_spawn;
    entity_id = e.entity_id;
    position = e.position;
    source_chunk = zero_coords;
    target_chunk = zero_coords;
    contents = entity (made e);
  }

  -- An event is all that waits in a BigChunk's channel, and nothing waits in the world's.
  abbrev pub WaitsFor : World F → Vec2 → EntityEvent F → Type 0
  WaitsFor w k e =
      (bc : BigChunk F) × (lookup k w.big_chunks ≡ some bc)
      × (bc.events_in ≡ entity_event e ∷ [])
      × (w.global_events ≡ [])

  -- A BigChunk has an entity.
  abbrev pub Holds : World F → Vec2 → ℕ → EntityData F → Type 0
  Holds w k id d =
      (bc : BigChunk F) × (lookup k w.big_chunks ≡ some bc)
      × (lookup id bc.entities ≡ some (known d))

module _ {F : Type 0} (registry : Registry) (random_id : EntityEvent F → ℕ) where
  -- A spawn event, with nothing else waiting, is confirmed by its echo.
  spawn_echoes :
      (bc : BigChunk F) (e : EntityEvent F)
      → e.event_type ≡ entity_spawn
      → e.entity_id ≢ 0
      → bc.events_in ≡ entity_event e ∷ []
      → process_pending_events registry random_id bc
        ≡ finished
            (record bc {
              events_in = [];
              entities = insert e.entity_id (known (made e)) bc.entities;
            })
            (wait (entity_event (echo e)) ∷ [])
  unfolding process_pending_events handle_all handle_event handle_entity_event handle_entity_kind
      spawn_entity
  spawn_echoes bc e asks real waiting =
      let idle : BigChunk F = record bc { events_in = [] } in
      ap (handle_all registry random_id idle) waiting
      ∙ ap
          (λ (t : EventType).
            then_run (handle_entity_kind random_id idle e t) (λ (c : BigChunk F). finished c []))
          asks
      ∙ ap
          (λ (n : ℕ).
            finished
              (record idle { entities = insert n (known (record (made e) { id = n })) bc.entities })
              (confirm random_id entity_spawn n e.position (entity (record (made e) { id = n }))
                ∷ []))
          (spawn_id-real registry random_id e real)

  abbrev after : BigChunk F → EntityEvent F → BigChunk F
  after bc e = record bc {
    events_in = [];
    entities = insert e.entity_id (known (made e)) bc.entities;
  }

  run_echoes :
      (w : World F) (k : Vec2) (bc : BigChunk F) (e : EntityEvent F)
      → e.event_type ≡ entity_spawn
      → e.entity_id ≢ 0
      → lookup k w.big_chunks ≡ some bc
      → bc.events_in ≡ entity_event e ∷ []
      → w.global_events ≡ []
      → run_big_chunk registry random_id w k
        ≡ some (record (store w k (after bc e)) { global_events = entity_event (echo e) ∷ [] })
  unfolding run_big_chunk run_found after_run send_out
  run_echoes w k bc e asks real there waiting quiet =
      rw there (rw (spawn_echoes bc e asks real waiting) (rw quiet refl))

module _ {F : Type 0} (registry : Registry) (random_id : EntityEvent F → ℕ)
    (load : Vec2 → Entities F → Entities F) (marshals : Event F → Bool) where
  -- A round makes the entity, and leaves the echo of the spawn event waiting.
  round_lem :
      (w : World F) (e : EntityEvent F)
      → e.event_type ≡ entity_spawn
      → e.entity_id ≢ 0
      → WaitsFor w (to_big_chunk_coords e.position) e
      → (w' : World F) × (round registry random_id load marshals (to_big_chunk_coords e.position) w
          ≡ some w')
        × WaitsFor w' (to_big_chunk_coords e.position) (echo e)
        × Holds w' (to_big_chunk_coords e.position) e.entity_id (made e)
  unfolding round process_global_event routed route_entity_event deliver offer
  round_lem w e asks real (bc, there, waiting, quiet) =
      let k = to_big_chunk_coords e.position in
      let bc' = after registry random_id bc e in
      let w1 : World F = record (store w k bc') { global_events = [] } in
      let here : lookup k w1.big_chunks ≡ some bc' = lookup-insert_self k bc' w.big_chunks in
      let bc1 : BigChunk F = deliver bc' (entity_event (echo e)) in
      (
        store w1 k bc1,
        rw (run_echoes registry random_id w k bc e asks real there waiting quiet)
            (ap some (send_to_lem load w1 k bc' (entity_event (echo e)) here)),
        (bc1, lookup-insert_self k bc1 w1.big_chunks, refl, refl),
        (
          bc1,
          lookup-insert_self k bc1 w1.big_chunks,
          lookup-insert_self e.entity_id (known (made e)) bc.entities,
        ),
      )

  -- A spawn event that is all that waits is never done with: after any number of rounds of its
  -- BigChunk and of the world's loop, two at least, there is a spawn event of the same entity at
  -- the same position waiting again, and the entity has neither its kind nor its metadata.
  pub spawn_never_settles :
      (n : ℕ) (w : World F) (e : EntityEvent F)
      → e.event_type ≡ entity_spawn
      → e.entity_id ≢ 0
      → WaitsFor w (to_big_chunk_coords e.position) e
      → (w' : World F) × (e' : EntityEvent F) × (rounds registry random_id load marshals
            (suc (suc n))
            (to_big_chunk_coords e.position)
            w
          ≡ some w')
        × (e'.event_type ≡ entity_spawn)
        × (e'.entity_id ≡ e.entity_id)
        × (e'.position ≡ e.position)
        × WaitsFor w' (to_big_chunk_coords e.position) e'
        × Holds w' (to_big_chunk_coords e.position) e.entity_id (blank e.entity_id e.position)
  unfolding rounds
  spawn_never_settles zero w e asks real waits =
      let (w1, q, waits1, holds1) = round_lem w e asks real waits in
      let (w2, r, waits2, holds2) = round_lem w1 (echo e) refl real waits1 in
      (w2, echo (echo e), rw q (rw r refl), refl, refl, refl, waits2, holds2)
  spawn_never_settles (suc n) w e asks real waits =
      let (w1, q, waits1, holds1) = round_lem w e asks real waits in
      let (w2, e2, r, a, b, c, waits2, holds2) =
        spawn_never_settles n w1 (echo e) refl real waits1 in
      (w2, e2, rw q r, a, b, c, waits2, holds2)
