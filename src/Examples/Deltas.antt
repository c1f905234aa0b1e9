-- ===== src/Examples/Deltas.antt =====
-- A manager with one subscriber and one changed block.
use mmo_game.Prelude.{◌%◌, neg_part, ℕ, pos, negsuc, List, [], ◌∷◌, ◌≡◌, ◌↔◌, arith, string_eq}
use mmo_game.Vec.{to_chunk_coords, Vec2, vec2_eq}
use mmo_game.Delta.{Manager, BlockChangeInfo, new_manager, flush_pending_changes, center_chunk}
use mmo_game.Delta.Center.{center_chunk_iff}
use mmo_game.Delta.Calls.{Call, adds, subscribes, calls}
use mmo_game.Delta.Versions.{InStep, calls-InStep}
use mmo_game.Delta.Versions.Delivery.{flush_twice}

abbrev block : Vec2
block = record { x = pos 20; y = negsuc 2 }

abbrev info : BlockChangeInfo ℕ
info = record { block_id = 3; metadata = []; change_type = "place"; player_id = 9 }

abbrev work : List (Call ℕ)
work = subscribes "c1" block (pos 2) ∷ adds (pos 50) block info ∷ []

abbrev manager : Manager ℕ
manager = calls new_manager work

calls-InStep_example : InStep manager
calls-InStep_example = calls-InStep work (omega arith)

flush_twice_example :
    (flush_pending_changes (pos 70) (flush_pending_changes (pos 60) manager).0).1 ≡ []
flush_twice_example = flush_twice (pos 60) (pos 70) manager (calls-InStep work (omega arith))

center_chunk_iff_example :
    (center_chunk block ≡ to_chunk_coords block)
    ↔ ((neg_part block.x % 16 ≡ 0) × (neg_part block.y % 16 ≡ 0))
center_chunk_iff_example = center_chunk_iff block
