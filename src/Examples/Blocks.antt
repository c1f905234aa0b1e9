-- ===== src/Examples/Blocks.antt =====
-- A bucket and some water.
use mmo_game.Prelude.{ℕ, ℤ, pos, some, [], ◌∷◌, ◌≡◌, refl, lookup, string_eq}
use mmo_game.Block.{int, string, Metadata, water_block_id}
use mmo_game.Block.Dispatch.{initial_registry}
use mmo_game.Block.Interaction.{repeat_action, bucket_never_empties}

abbrev to_int : ℕ → ℤ
to_int n = pos n

abbrev to_uint16 : ℕ → ℕ
to_uint16 n = n

abbrev pond : Metadata ℕ
pond = ("level", int (pos 1)) ∷ []

abbrev bucket : Metadata ℕ
bucket = ("tool", string "bucket") ∷ []

bucket_never_empties_example :
    let r =
      repeat_action to_int to_uint16 5 initial_registry "use" (water_block_id, pond) 0 bucket in
    (r.0 ≡ water_block_id) × (lookup "level" r.1 ≡ some (int (pos 4)))
unfolding lookup
bucket_never_empties_example = bucket_never_empties to_int to_uint16 4 pond bucket 0 refl refl
