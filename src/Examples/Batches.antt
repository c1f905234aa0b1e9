-- ===== src/Examples/Batches.antt =====
-- Batches between regions.
use mathlib.Core.List.{Perm}
use mmo_game.Prelude.{
  ℕ, ℤ, pos, ◌≤ℤ◌, false, Option, none, some, List, [], ◌∷◌, ◌++◌, map, length, ◌≡◌, refl, All,
  arith, ◌==◌, string_eq, nat_eq, if◌then◌else◌, ltb,
}
use mmo_game.Sync.Exchange.{consume-flush, heard}
use mmo_game.Sync.{
  flush, consume, passthrough_compressor, received, decoded, Change, bare, BatchManager, add_change,
  passthrough_compress, passthrough_decompress, decompress_loop,
}
use mmo_game.Sync.Batch.{add_change-full}
use mmo_game.Sync.Compressor.{decompress-compress, decompress_fuel}
use mmo_game.Regional.{ChangeData, FloatTests, Node, handle_sync_batch}
use mmo_game.Regional.Batches.{foreign_batch_panics}

abbrev low_one : Change
low_one = record (bare (7 ∷ 8 ∷ [])) { priority = pos 1; timestamp = pos 10 }

abbrev high_one : Change
high_one = record (bare (9 ∷ [])) { priority = pos 3; timestamp = pos 20 }

abbrev full_manager : BatchManager
full_manager = record { buf = high_one ∷ low_one ∷ []; capacity = pos 2; source = "eu" }

add_change-full_example :
    (lost : Change) × Perm
      (lost ∷ (add_change full_manager high_one).buf)
      (high_one ∷ full_manager.buf)
    × All (λ c. lost.priority ≤ℤ c.priority) (add_change full_manager high_one).buf
add_change-full_example = add_change-full full_manager high_one (omega arith)

abbrev two : List Change
two = low_one ∷ high_one ∷ []

decompress-compress_example :
    passthrough_decompress (passthrough_compress two ++ 0 ∷ 0 ∷ [])
    ≡ map (λ c. bare c.data_bytes) two
decompress-compress_example =
    decompress-compress two (0 ∷ 0 ∷ []) (omega arith, (omega arith, tt)) (omega arith)

decompress_fuel_example :
    decompress_loop 100 (0 ∷ 0 ∷ 0 ∷ 1 ∷ 42 ∷ 0 ∷ [])
    ≡ some (passthrough_decompress (0 ∷ 0 ∷ 0 ∷ 1 ∷ 42 ∷ 0 ∷ []))
decompress_fuel_example = decompress_fuel 100 (0 ∷ 0 ∷ 0 ∷ 1 ∷ 42 ∷ 0 ∷ []) (omega arith)

abbrev outbox : BatchManager
outbox = record { buf = low_one ∷ bare [] ∷ []; capacity = pos 2; source = "eu" }

abbrev sent : List ℕ
sent = passthrough_compress outbox.buf

consume-flush_example :
    (passthrough_decompress sent ≡ bare (7 ∷ 8 ∷ []) ∷ bare [] ∷ [])
    × ((flush passthrough_compressor outbox).0.buf ≡ [])
    × (consume passthrough_compressor "eu" sent
        ≡ received (length sent) "eu" ∷ decoded 2 ∷ heard 0 ((7 ∷ 8 ∷ []) ∷ [] ∷ []))
unfolding flush
consume-flush_example = consume-flush outbox sent "eu" (omega arith, (omega arith, tt)) refl

-- A library that packs nothing, behind one byte of header.
abbrev pack : List ℕ → Option (List ℕ)
pack raw = some (31 ∷ raw)

abbrev unpack : List ℕ → Option (List ℕ)
unpack [] = none
unpack (header ∷ raw) = if header == 31 then some raw else none

undo : (raw packed : List ℕ) → pack raw ≡ some packed → unpack packed ≡ some raw
undo raw packed h = let e : 31 ∷ raw ≡ packed = ground arith in rw (← e) refl

abbrev floats : FloatTests ℕ
floats = record { to_int = λ n. pos n; above_limit = λ n. ltb 10000 n; below_limit = λ n. false }

abbrev unmarshal : List ℕ → Option (ChangeData ℕ)
unmarshal raw = some (record { kind = "block_place"; position = []; fields = [] })

abbrev node : Node
node = record {
  region_id = "us";
  batch_manager = full_manager;
  local_changes = 0;
  remote_changes = 0;
  conflicts_resolved = 0;
}

abbrev now : ℤ
now = pos 600_000_000_000

foreign_batch_panics_example :
    handle_sync_batch floats unmarshal now node "eu" (0 ∷ 0 ∷ 0 ∷ 1 ∷ 42 ∷ []) ≡ none
unfolding passthrough_decompress
foreign_batch_panics_example =
    foreign_batch_panics floats unmarshal now node "eu" (0 ∷ 0 ∷ 0 ∷ 1 ∷ 42 ∷ []) (omega arith) refl
      (λ h. cc)
