-- ===== src/BigChunk/Npc.antt =====
-- The entities that a BigChunk moves by itself: canEntityMoveTo, updateNPC and updateEntities of
-- internal/world/bigchunk.go. They run under a read lock.
use mmo_game.Prelude.{
  ℕ, pos, negsuc, ◌+ℤ◌, wrap, Bool, true, false, not, Option, none, some, List, [], ◌∷◌, ◌++◌,
  lookup, insert, if◌then◌else◌, ◌==◌, nat_eq, string_eq, get_elem?,
}
use mmo_game.Vec.{Vec2, vec2_eq, to_chunk_coords, local_in_chunk}
use mmo_game.Physics.{new_box_collider, can_move_to_position, check_box_collision}
use mmo_game.Block.{Registry, get, air_block_id}
use mmo_game.Chunk.{new_chunk, get_block, coord_eq}
use mmo_game.Events.{EntityData, known, loaded, entity, entity_move, Entities, Event, entity_event}
use mmo_game.BigChunk.{BigChunk, Send, wait, chunk_or_new, zero_coords}

-- The directions of updateNPC: down, right, up, left.
abbrev directions : List Vec2
directions =
    record { x = pos 0; y = pos 1 }
    ∷ record { x = pos 1; y = pos 0 }
    ∷ record { x = pos 0; y = negsuc 0 }
    ∷ record { x = negsuc 0; y = pos 0 }
    ∷ []

module _ {F : Type 0} (registry : Registry) where
  -- `blockChecker` of canEntityMoveTo: only air is passable. A chunk that is missing is created,
  -- empty, which is what a read of it sees.
  unfoldable pub is_passable : BigChunk F → Vec2 → Bool
  is_passable bc p =
      let block_id =
        get_block (chunk_or_new (to_chunk_coords p) (lookup (to_chunk_coords p) bc.chunks))
          (local_in_chunk p) in
      elim block_id [
        | none ↦ false
        | some id ↦ elim (get id registry) [ none ↦ false | some _ ↦ id == air_block_id ]
      ]

  -- The loop over the other entities.
  meets_other : ℕ → Vec2 → Entities F → Bool
  meets_other id p [] = false
  meets_other id p ((other, loaded _) ∷ others) = meets_other id p others
  meets_other id p ((other, known e) ∷ others) =
      let rest = meets_other id p others in
      if other == id
      then rest
      else (if check_box_collision p (new_box_collider (pos 1) (pos 1)) e.position
            (new_box_collider (pos 1) (pos 1))
          then true
          else rest)

  unfoldable pub touch_chunk : BigChunk F → Vec2 → BigChunk F
  touch_chunk bc coords = elim (lookup coords bc.chunks) [
    | none ↦ record bc { chunks = insert coords (new_chunk coords) bc.chunks }
    | some _ ↦ bc
  ]

  -- The chunk that the check creates stays.
  unfoldable pub can_entity_move_to : BigChunk F → ℕ → Vec2 → BigChunk F × Bool
  unfolding meets_other is_passable
  can_entity_move_to bc id p = elim (lookup id bc.entities) [
    | none ↦ (bc, false)
    | some _ ↦ (
      touch_chunk bc (to_chunk_coords p),
      if can_move_to_position p (new_box_collider (pos 1) (pos 1)) (is_passable bc)
          then not (meets_other id p bc.entities)
          else false,
    )
  ]

  abbrev move_event : ℕ → Vec2 → EntityData F → Event F
  move_event id p e = entity_event (record {
    event_type = entity_move;
    entity_id = id;
    position = p;
    source_chunk = zero_coords;
    target_chunk = zero_coords;
    contents = entity e;
  })

  moved_npc : BigChunk F × Bool → ℕ → EntityData F → BigChunk F × List (Send F)
  moved_npc (bc, true) id e = (
    record bc { entities = insert id (known e) bc.entities },
    wait (move_event id e.position e) ∷ [],
  )
  moved_npc (bc, false) id e = (bc, [])

  step_npc : BigChunk F → ℕ → EntityData F → Option Vec2 → BigChunk F × List (Send F)
  unfolding can_entity_move_to moved_npc
  step_npc bc id e none = (bc, [])
  step_npc bc id e (some dir) =
      let p : Vec2 = record {
        x = wrap (e.position.x +ℤ dir.x);
        y = wrap (e.position.y +ℤ dir.y);
      } in
      moved_npc (can_entity_move_to bc id p) id (record e { position = p })

  -- What updateNPC draws: whether to move, and an index into the directions.
  unfoldable pub update_npc : Bool × ℕ → BigChunk F → ℕ → EntityData F → BigChunk F × List (Send F)
  unfolding step_npc
  update_npc (moves, direction) bc id e =
      if moves then step_npc bc id e (get_elem? directions direction) else (bc, [])

  -- The loop of updateEntities; only an EntityData of kind 1, an NPC, is updated.
  update_each : (ℕ → Bool × ℕ) → BigChunk F → Entities F → BigChunk F × List (Send F)
  unfolding update_npc
  update_each draws bc [] = (bc, [])
  update_each draws bc ((id, loaded _) ∷ rest) = update_each draws bc rest
  update_each draws bc ((id, known e) ∷ rest) =
      let (bc', sent) = if e.kind == 1 then update_npc (draws id) bc id e else (bc, []) in
      let (bc'', more) = update_each draws bc' rest in (bc'', sent ++ more)

  unfoldable pub update_entities : (ℕ → Bool × ℕ) → BigChunk F → BigChunk F × List (Send F)
  unfolding update_each
  update_entities draws bc = update_each draws bc bc.entities
