-- ===== src/Examples/Worlds.antt =====
-- A world whose generator makes chunks of stone, with a few calls.
use mathlib.Core.Option.{map as map_option}
use mmo_game.Prelude.{
  ℕ, pos, negsuc, ◌*ℤ◌, ◌+ℤ◌, wrap, Option, none, some, List, [], ◌∷◌, ◌≡◌, ◌↔◌, ◌≤ℤ◌, ◌<ℤ◌, refl,
  ap, Bool, true, false, arith, lookup, insert, string_eq, nat_eq,
}
use mmo_game.Vec.{Vec2, vec2_eq, to_chunk_coords, to_big_chunk_coords, local_in_chunk}
use mmo_game.Block.{int, get}
use mmo_game.Block.Dispatch.{initial_registry, id, needs_tick}
use mmo_game.Chunk.{Chunk, new_chunk, set_block_layer as write_chunk, set_block_metadata_layer}
use mmo_game.Events.{
  entity_spawn, fields, uint16, entity_event, Block, EntityData, known, nothing, Entities, Event,
  EntityEvent,
}
use mmo_game.BigChunk.{BigChunk, new_big_chunk, Send, finished}
use mmo_game.BigChunk.Handle.{process_pending_events, write_block_to, set_payload}
use mmo_game.World.{
  World, big_chunk_of_chunk, new_world_manager, set_block_layer, get_chunk, reach, reach_big_chunk,
  create_big_chunk,
}
use mmo_game.World.View.{view}
use mmo_game.World.Requests.{
  Request, Answer, read, write, remove, read_value, write_value, serve, answer, in_order, shown,
  in_order-refines,
}
use mmo_game.World.Total.{NoNil, in_order-total}
use mmo_game.World.Stale.{chunk_big_chunk, big_chunk_of_chunk_iff, get_chunk_stale}
use mmo_game.World.Route.{process_entity_movement}
use mmo_game.World.Life.{Call, move, spawn, despawn, batch, next_event, next_tick, save}
use mmo_game.World.Drive.{rounds}
use mmo_game.World.Echo.{WaitsFor, Holds, spawn_never_settles}
use mmo_game.World.Handover.{blank, handover_blanks}

abbrev generate : Vec2 → Chunk ℕ
generate c = record (new_chunk c) { blocks = λ k. 1 }

abbrev load : Vec2 → Entities ℕ → Entities ℕ
load k entities = entities

abbrev marshals : Event ℕ → Bool
marshals e = true

abbrev start : World ℕ
start = new_world_manager 0

abbrev far : Vec2
far = record { x = pos 600; y = pos 5 }

abbrev near : Vec2
near = record { x = negsuc 2; y = pos 5 }

abbrev soil : Block ℕ
soil = record { id = 4; payload = ("moisture", int (pos 0)) ∷ [] }

abbrev requests : List (Request ℕ)
requests =
    read far 1
    ∷ write far 1 soil
    ∷ write_value far "moisture" (int (pos 3))
    ∷ read_value far "moisture"
    ∷ remove far
    ∷ read near 0
    ∷ []

in_order-refines_example :
    map_option
      (shown initial_registry load generate)
      (in_order (serve initial_registry load generate) start requests)
    ≡ in_order answer (view generate start) requests
in_order-refines_example = in_order-refines initial_registry load generate start requests

in_order-total_example :
    (w' : World ℕ) × (answers : List (Answer ℕ)) × (in_order
        (serve initial_registry load generate)
        start
        requests
      ≡ some (w', answers))
    × NoNil (view generate w')
unfolding new_world_manager new_chunk lookup
in_order-total_example = in_order-total initial_registry load generate start requests (λ k. refl)

abbrev unwrap : Option (World ℕ) → World ℕ
unwrap none = start
unwrap (some w) = w

abbrev planted : World ℕ
planted = unwrap (set_block_layer initial_registry load generate start far 1 soil)

abbrev x_part : Vec2 → ℕ
x_part v = elim v.x [ pos n ↦ n | negsuc n ↦ n ]

get_chunk_stale_example :
    (get_chunk load generate planted (to_chunk_coords far)).1
    ≡ (get_chunk load generate start (to_chunk_coords far)).1
unfolding set_block_layer reach reach_big_chunk create_big_chunk new_big_chunk new_world_manager
    new_chunk lookup insert write_block_to set_payload to_chunk_coords to_big_chunk_coords
    local_in_chunk initial_registry get id needs_tick wrap ◌*ℤ◌ ◌+ℤ◌ write_chunk
    set_block_metadata_layer
get_chunk_stale_example =
    get_chunk_stale initial_registry load generate start planted far 1 soil
      (λ e. let same : 8 ≡ 1 = ap x_part e in omega arith) refl

abbrev events : List (Call ℕ)
events =
    spawn 3 far nothing
    ∷ move 1001 far near
    ∷ batch ((near, soil) ∷ (far, soil) ∷ [])
    ∷ next_tick
    ∷ save true false 5 6
    ∷ despawn 1001 near
    ∷ next_event
    ∷ []

abbrev seam : Vec2
seam = record { x = pos 20; y = pos 3 }

big_chunk_of_chunk_iff_example :
    (big_chunk_of_chunk seam ≡ chunk_big_chunk seam)
    ↔ ((pos 0 ≤ℤ pos 20) × (pos 20 <ℤ pos 16) × (pos 0 ≤ℤ pos 3) × (pos 3 <ℤ pos 16))
big_chunk_of_chunk_iff_example =
    big_chunk_of_chunk_iff seam (omega arith, omega arith) (omega arith, omega arith)

abbrev cow : EntityData ℕ
cow = record { id = 7; kind = 3; position = near; metadata = [] }

abbrev west : BigChunk ℕ
west = record (new_big_chunk (record { x = negsuc 0; y = pos 0 })) {
  entities = (7, known cow) ∷ [];
}

abbrev east : BigChunk ℕ
east = new_big_chunk (record { x = pos 1; y = pos 0 })

abbrev two_sides : World ℕ
two_sides = record start {
  big_chunks =
      (record { x = negsuc 0; y = pos 0 }, west) ∷ (record { x = pos 1; y = pos 0 }, east) ∷ [];
}

abbrev random_id : EntityEvent ℕ → ℕ
random_id e = 99

handover_blanks_example :
    let w' = (process_entity_movement load marshals two_sides 7 near far).0 in
    (a1 : BigChunk ℕ) × (b1 : BigChunk ℕ) × (a2 : BigChunk ℕ) × (b2 : BigChunk ℕ) × (sent : List
      (Send ℕ))
    × (more : List (Send ℕ)) × (lookup (to_big_chunk_coords near) w'.big_chunks ≡ some a1)
    × (lookup (to_big_chunk_coords far) w'.big_chunks ≡ some b1)
    × (process_pending_events initial_registry random_id a1 ≡ finished a2 sent)
    × (process_pending_events initial_registry random_id b1 ≡ finished b2 more)
    × (lookup 7 a2.entities ≡ none)
    × (lookup 7 b2.entities ≡ some (known (blank 7 far)))
unfolding to_big_chunk_coords new_big_chunk new_world_manager lookup
handover_blanks_example =
    handover_blanks load marshals initial_registry random_id two_sides 7 near far west east
      (known cow) (λ e. let same : 0 ≡ 1 = ap x_part e in omega arith) refl refl refl refl
      (omega arith) refl

abbrev birth : EntityEvent ℕ
birth = record {
  event_type = entity_spawn;
  entity_id = 7;
  position = near;
  source_chunk = record { x = pos 0; y = pos 0 };
  target_chunk = record { x = pos 0; y = pos 0 };
  contents = fields (("type", uint16 3) ∷ []);
}

abbrev nursery : World ℕ
nursery = record start {
  big_chunks =
      (record { x = negsuc 0; y = pos 0 }, record west { events_in = entity_event birth ∷ [] })
      ∷ [];
}

spawn_never_settles_example :
    (w' : World ℕ) × (e' : EntityEvent ℕ) × (rounds initial_registry random_id load marshals 5
        (to_big_chunk_coords near)
        nursery
      ≡ some w')
    × (e'.event_type ≡ entity_spawn)
    × (e'.entity_id ≡ 7)
    × (e'.position ≡ near)
    × WaitsFor w' (to_big_chunk_coords near) e'
    × Holds w' (to_big_chunk_coords near) 7 (blank 7 near)
unfolding to_big_chunk_coords new_big_chunk new_world_manager lookup
spawn_never_settles_example =
    spawn_never_settles initial_registry random_id load marshals 3 nursery birth refl (omega arith)
      (record west { events_in = entity_event birth ∷ [] }, refl, refl, refl)
