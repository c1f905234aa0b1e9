-- ===== src/World/Messages.antt =====
-- A message to a BigChunk leaves the blocks of the world as they are.
use mmo_game.Prelude.{
  ℕ, Bool, some, ◌≡◌, refl, ap, sym, ◌∙◌, inl, inr, Bool-cases, beq_cases, lookup, ◌==◌,
}
use mmo_game.Vec.{Vec2, vec2_eq, to_chunk_coords, to_big_chunk_coords, local_in_chunk}
use mmo_game.Chunk.{Chunk, at}
use mmo_game.Chunk.Cells.{cells_of}
use mmo_game.Events.{Event, Entities}
use mmo_game.BigChunk.{BigChunk}
use mmo_game.World.{World, store}
use mmo_game.World.View.{chunk_in, chunk_or_made, view, chunk_in-store, reached}
use mmo_game.World.Route.{deliver, send_to, route_entity_event, process_entity_movement}

module _ {F : Type 0} (load : Vec2 → Entities F → Entities F) (generate : Vec2 → Chunk F) where
  delivered_same :
      (w : World F) (k : Vec2) (bc : BigChunk F) (e : Event F) (j c : Vec2)
      → lookup k w.big_chunks ≡ some bc
      → chunk_in c (lookup j (store w k (deliver bc e)).big_chunks)
        ≡ chunk_in c (lookup j w.big_chunks)
  unfolding deliver
  delivered_same w k bc e j c there = elim (beq_cases vec2_eq k j) [
    | inl (t, same) ↦
        chunk_in-store w k j c (deliver bc e)
        ∙ rw t (sym (ap (chunk_in c) (ap (λ (i : Vec2). lookup i w.big_chunks) (sym same) ∙ there)))
    | inr f ↦ chunk_in-store w k j c (deliver bc e) ∙ rw f refl
  ]

  send_to-same :
      (w : World F) (k : Vec2) (e : Event F) (j c : Vec2)
      → chunk_in c (lookup j (send_to load w k e).big_chunks) ≡ chunk_in c (lookup j w.big_chunks)
  unfolding send_to
  send_to-same w k e j c =
      let (bc, w', reaches, there, same) = reached load w k in
      rw reaches (delivered_same w' k bc e j c there ∙ same j c)

  pub send_to-view :
      (w : World F) (k : Vec2) (e : Event F) → view generate (send_to load w k e) ≡ view generate w
  send_to-view w k e i b =
      cells_of
        (chunk_or_made generate (to_chunk_coords b.position)
          (send_to-same w k e (to_big_chunk_coords b.position) (to_chunk_coords b.position) i))
        (at b.layer (local_in_chunk b.position))

  -- ProcessEntityMovement sends two messages at most.
  pub process_entity_movement-view :
      (marshals : Event F → Bool) (w : World F) (id : ℕ) (p q : Vec2)
      → view generate (process_entity_movement load marshals w id p q).0 ≡ view generate w
  unfolding process_entity_movement route_entity_event
  process_entity_movement-view marshals w id p q =
      elim (Bool-cases (to_big_chunk_coords p == to_big_chunk_coords q)) [
        | inl t ↦ rw t refl
        | inr f ↦ rw f (send_to-view _ _ _ ∙ send_to-view _ _ _)
      ]
