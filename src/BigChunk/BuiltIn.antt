-- ===== src/BigChunk/BuiltIn.antt =====
-- Which of the built-in block types ask the world for something in OnBreak, OnPlace and NeedsTick,
-- by their identifiers (internal/world/block/implementations).
use mmo_game.Prelude.{
  ℕ, Bool, true, false, List, [], ◌∷◌, ◌≡◌, refl, inl, inr, beq_cases, lookup, insert, All, subst,
  nat_eq, string_eq, if◌then◌else◌, ◌==◌,
}
use mmo_game.Vec.{vec2_eq}
use mmo_game.Block.{
  get, air_block_id, stone_block_id, grass_block_id, water_block_id, dirt_block_id,
  deep_water_block_id, tree_block_id, cactus_block_id,
}
use mmo_game.Block.Dispatch.{initial_registry, needs_tick}
use mmo_game.Events.{wants_tick}
use mmo_game.BigChunk.{
  on_break_blocks, on_place_blocks, takes_mutex, first_on_break, first_on_place,
}

abbrev pub one_of : ℕ → List ℕ → Bool
one_of id [] = false
one_of id (n ∷ ns) = if n == id then true else one_of id ns

-- The blocks whose OnBreak, OnPlace and NeedsTick ask the world for something.
abbrev pub break_ids : List ℕ
break_ids =
    stone_block_id ∷ water_block_id ∷ deep_water_block_id ∷ tree_block_id ∷ cactus_block_id ∷ []

abbrev pub place_ids : List ℕ
place_ids = grass_block_id ∷ dirt_block_id ∷ break_ids

abbrev pub tick_ids : List ℕ
tick_ids = grass_block_id ∷ water_block_id ∷ []

-- The built-in types, one by one, and every other identifier.
abbrev built_in : List ℕ
built_in =
    air_block_id ∷ cactus_block_id ∷ deep_water_block_id ∷ dirt_block_id ∷ grass_block_id
    ∷ stone_block_id ∷ water_block_id ∷ tree_block_id ∷ []

abbrev IsOther : ℕ → List ℕ → Type 0
IsOther id ns = All (λ n. (n == id) ≡ false) ns

by_id_from : (P : ℕ → Type 0) (ns : List ℕ) (id : ℕ) → All P ns → (IsOther id ns → P id) → P id
by_id_from P [] id known other = other tt
by_id_from P (n ∷ ns) id known other = elim (beq_cases nat_eq n id) [
  | inl (t, e) ↦ subst P e known.0
  | inr f ↦ by_id_from P ns id known.1 (λ more. other (f, more))
]

pub on_break_ids : (id : ℕ) → on_break_blocks (get id initial_registry) ≡ one_of id break_ids
unfolding initial_registry get lookup insert on_break_blocks first_on_break takes_mutex
on_break_ids id =
    by_id_from (λ n. on_break_blocks (get n initial_registry) ≡ one_of n break_ids) built_in id
      (refl, (refl, (refl, (refl, (refl, (refl, (refl, (refl, tt))))))))
      λ (air, (cactus, (deep, (dirt, (grass, (stone, (water, (tree, _)))))))).
        rw (air, cactus, deep, dirt, grass, stone, water, tree) refl

pub on_place_ids : (id : ℕ) → on_place_blocks (get id initial_registry) ≡ one_of id place_ids
unfolding initial_registry get lookup insert on_place_blocks first_on_place takes_mutex
on_place_ids id =
    by_id_from (λ n. on_place_blocks (get n initial_registry) ≡ one_of n place_ids) built_in id
      (refl, (refl, (refl, (refl, (refl, (refl, (refl, (refl, tt))))))))
      λ (air, (cactus, (deep, (dirt, (grass, (stone, (water, (tree, _)))))))).
        rw (air, cactus, deep, dirt, grass, stone, water, tree) refl

pub needs_tick_ids : (id : ℕ) → wants_tick (get id initial_registry) ≡ one_of id tick_ids
unfolding initial_registry get lookup insert needs_tick
needs_tick_ids id =
    by_id_from (λ n. wants_tick (get n initial_registry) ≡ one_of n tick_ids) built_in id
      (refl, (refl, (refl, (refl, (refl, (refl, (refl, (refl, tt))))))))
      λ (air, (cactus, (deep, (dirt, (grass, (stone, (water, (tree, _)))))))).
        rw (air, cactus, deep, dirt, grass, stone, water, tree) refl
