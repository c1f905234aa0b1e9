-- ===== src/Examples/Chunks.antt =====
-- A small chunk, with water placed, grass put and a note written.
use mmo_game.Prelude.{
  ℕ, pos, negsuc, Option, none, some, List, [], ◌∷◌, ◌≡◌, refl, insert, lookup, arith, string_eq,
}
use mmo_game.Vec.{Vec2, local_in_chunk}
use mmo_game.Block.{int, get, water}
use mmo_game.Block.Dispatch.{initial_registry, id, needs_tick}
use mmo_game.Chunk.{
  Chunk, BlockCoord, coord_eq, at, new_chunk, set_block_layer, set_block_with_behavior,
  set_block_metadata_layer, clear_changes, has_changes,
}
use mmo_game.Chunk.Edits.{Edit, put, place, note, edit, edits}
use mmo_game.Chunk.Ticking.{TicksExact, edits-TicksExact}
use mmo_game.Chunk.Changes.{edits-Tracked, has_changes_complete}

abbrev here : Vec2
here = record { x = pos 35; y = negsuc 2 }

abbrev corner : Vec2
corner = record { x = pos 3; y = pos 4 }

abbrev empty : Chunk ℕ
empty = new_chunk (record { x = pos 2; y = negsuc 0 })

abbrev work : List (Edit ℕ)
work =
    place corner water
    ∷ put 0 corner 2
    ∷ note 1 corner "level" (int (pos 7))
    ∷ put 1 (local_in_chunk here) 2
    ∷ []

abbrev unwrap : Option (Chunk ℕ) → Chunk ℕ
unwrap none = empty
unwrap (some c) = c

abbrev worked : Chunk ℕ
worked = unwrap (edits initial_registry (some empty) work)

edits-TicksExact_example : TicksExact initial_registry worked
unfolding edits edit set_block_layer set_block_with_behavior set_block_metadata_layer local_in_chunk
    initial_registry get new_chunk id lookup insert needs_tick
edits-TicksExact_example =
    edits-TicksExact initial_registry empty.coords work worked refl (refl, (tt, (tt, (tt, tt))))
      refl

abbrev more : List (Edit ℕ)
more = note 0 corner "growth" (int (pos 1)) ∷ put 2 corner 1 ∷ []

abbrev grown : Chunk ℕ
grown = unwrap (edits initial_registry (some (clear_changes worked)) more)

abbrev elsewhere : BlockCoord
elsewhere = at 1 corner

edits-Tracked_example :
    (grown.blocks elsewhere ≡ worked.blocks elsewhere)
    × (lookup elsewhere grown.metadata ≡ lookup elsewhere worked.metadata)
unfolding edits edit set_block_layer set_block_with_behavior set_block_metadata_layer local_in_chunk
    initial_registry get new_chunk id lookup insert needs_tick clear_changes
edits-Tracked_example = edits-Tracked initial_registry worked more grown refl elsewhere refl

-- A put on a layer that does not exist is ignored.
abbrev ignored : List (Edit ℕ)
ignored = put 3 corner 1 ∷ []

abbrev unchanged : Chunk ℕ
unchanged = unwrap (edits initial_registry (some (clear_changes worked)) ignored)

has_changes_complete_example :
    (unchanged.blocks elsewhere ≡ worked.blocks elsewhere)
    × (lookup elsewhere unchanged.metadata ≡ lookup elsewhere worked.metadata)
unfolding edits edit set_block_layer set_block_with_behavior set_block_metadata_layer local_in_chunk
    initial_registry get new_chunk id lookup insert needs_tick clear_changes has_changes
has_changes_complete_example =
    has_changes_complete initial_registry worked ignored unchanged (omega arith) refl refl elsewhere
