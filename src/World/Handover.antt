-- ===== src/World/Handover.antt =====
-- An entity that moves from one BigChunk to another.
use mmo_game.Prelude.{
  ℕ, Bool, none, some, List, [], ◌≡◌, ◌≢◌, refl, sym, ◌∙◌, inl, inr, beq_cases, lookup,
  lookup-insert, lookup-insert_self, nat_eq,
}
use mmo_game.Vec.{Vec2, vec2_eq, to_big_chunk_coords}
use mmo_game.Events.{EntityData, Kept, known, EntityEvent, Entities, Event, entity_event, offer}
use mmo_game.BigChunk.{BigChunk, Send, finished}
use mmo_game.BigChunk.Handle.{process_pending_events}
use mmo_game.Block.{Registry}
use mmo_game.BigChunk.Pending.{despawn_one, spawn_one}
use mmo_game.World.{World, reach_big_chunk, found_big_chunk, store}
use mmo_game.World.Route.{
  deliver, send_to, process_entity_movement, route_entity_event, exit_event, enter_event,
}

module _ {F : Type 0} (load : Vec2 → Entities F → Entities F) where
  -- An event that is sent waits behind those that were there; the other BigChunks are as before.
  pub send_to_lem :
      (w : World F) (k : Vec2) (bc : BigChunk F) (e : Event F)
      → lookup k w.big_chunks ≡ some bc
      → send_to load w k e ≡ store w k (deliver bc e)
  unfolding send_to reach_big_chunk found_big_chunk
  send_to_lem w k bc e there = rw there refl

module _ {F : Type 0} where
  lookup-store_other :
      (w : World F) (k j : Vec2) (bc : BigChunk F)
      → k ≢ j
      → lookup j (store w k bc).big_chunks ≡ lookup j w.big_chunks
  lookup-store_other w k j bc other = elim (beq_cases vec2_eq k j) [
    | inl (t, e) ↦ absurd (other e)
    | inr f ↦ lookup-insert j k bc w.big_chunks ∙ rw f refl
  ]

  lookup-store_self :
      (w : World F) (k : Vec2) (bc : BigChunk F) → lookup k (store w k bc).big_chunks ≡ some bc
  lookup-store_self w k bc = lookup-insert_self k bc w.big_chunks

module _ {F : Type 0} (load : Vec2 → Entities F → Entities F) where
  two_sends :
      (w : World F) (o n : Vec2) (a b : BigChunk F) (e f : Event F)
      → o ≢ n
      → lookup o w.big_chunks ≡ some a
      → lookup n w.big_chunks ≡ some b
      → (lookup o (send_to load (send_to load w o e) n f).big_chunks ≡ some (deliver a e))
        × (lookup n (send_to load (send_to load w o e) n f).big_chunks ≡ some (deliver b f))
  two_sends w o n a b e f other h k =
      let there : lookup n (store w o (deliver a e)).big_chunks ≡ some b =
        lookup-store_other w o n (deliver a e) other ∙ k in
      rw (send_to_lem load w o a e h, send_to_lem load (store w o (deliver a e)) n b f there)
        (
          lookup-store_other (store w o (deliver a e)) n o (deliver b f) (λ q. other (sym q))
              ∙ lookup-store_self w o (deliver a e),
          lookup-store_self (store w o (deliver a e)) n (deliver b f),
        )

-- An entity without a kind and without metadata.
abbrev pub blank : {F : Type 0} → ℕ → Vec2 → EntityData F
blank id p = record { id = id; kind = 0; position = p; metadata = [] }

module _ {F : Type 0} (load : Vec2 → Entities F → Entities F) (marshals : Event F → Bool) where
  -- Both BigChunks get their event.
  moved_events :
      (w : World F) (id : ℕ) (old_pos new_pos : Vec2) (a b : BigChunk F)
      → to_big_chunk_coords old_pos ≢ to_big_chunk_coords new_pos
      → lookup (to_big_chunk_coords old_pos) w.big_chunks ≡ some a
      → lookup (to_big_chunk_coords new_pos) w.big_chunks ≡ some b
      → (lookup
            (to_big_chunk_coords old_pos)
            (process_entity_movement load marshals w id old_pos new_pos).0.big_chunks
          ≡ some (deliver a (entity_event (exit_event id old_pos))))
        × (lookup
              (to_big_chunk_coords new_pos)
              (process_entity_movement load marshals w id old_pos new_pos).0.big_chunks
            ≡ some (deliver b (entity_event (enter_event id new_pos))))
  unfolding process_entity_movement route_entity_event
  moved_events w id old_pos new_pos a b other h k =
      let o = to_big_chunk_coords old_pos in
      let n = to_big_chunk_coords new_pos in
      elim (beq_cases vec2_eq o n) [
        | inl (t, e) ↦ absurd (other e)
        | inr f ↦ rw f (
            two_sends load w o n a b (entity_event (exit_event id old_pos))
              (entity_event (enter_event id new_pos)) other h k)
      ]

  -- An entity that moves from a BigChunk to another, both with nothing waiting, is gone from the
  -- old one once that has handled its events, and is in the new one once that has: under its
  -- identifier and at its new position, without its kind and without its metadata.
  pub handover_blanks :
      (registry : Registry) (random_id : EntityEvent F → ℕ) (w : World F) (id : ℕ)
      (old_pos new_pos : Vec2) (a b : BigChunk F) (e : Kept F)
      → to_big_chunk_coords old_pos ≢ to_big_chunk_coords new_pos
      → lookup (to_big_chunk_coords old_pos) w.big_chunks ≡ some a
      → lookup (to_big_chunk_coords new_pos) w.big_chunks ≡ some b
      → a.events_in ≡ []
      → b.events_in ≡ []
      → id ≢ 0
      → lookup id a.entities ≡ some e
      → let w' = (process_entity_movement load marshals w id old_pos new_pos).0 in
        (a1 : BigChunk F) × (b1 : BigChunk F) × (a2 : BigChunk F) × (b2 : BigChunk F) × (sent : List
          (Send F))
        × (more : List (Send F)) × (lookup (to_big_chunk_coords old_pos) w'.big_chunks ≡ some a1)
        × (lookup (to_big_chunk_coords new_pos) w'.big_chunks ≡ some b1)
        × (process_pending_events registry random_id a1 ≡ finished a2 sent)
        × (process_pending_events registry random_id b1 ≡ finished b2 more)
        × (lookup id a2.entities ≡ none)
        × (lookup id b2.entities ≡ some (known (blank id new_pos)))
  unfolding deliver offer
  handover_blanks registry random_id w id old_pos new_pos a b e other h k idle idle' real there =
      let (left, entered) = moved_events w id old_pos new_pos a b other h k in
      let (a2, sent, p, gone) =
        despawn_one registry random_id (record a { events_in = [] }) (exit_event id old_pos) e refl
          there in
      let (b2, more, q, here) =
        spawn_one registry random_id (record b { events_in = [] }) (enter_event id new_pos) refl
          real in
      (
        deliver a (entity_event (exit_event id old_pos)),
        deliver b (entity_event (enter_event id new_pos)),
        a2,
        b2,
        sent,
        more,
        left,
        entered,
        rw idle p,
        rw idle' q,
        gone,
        here,
      )
