-- ===== src/Block/Interaction.antt =====
-- What a player's interaction does to a block.
use mmo_game.Prelude.{
  ℕ, zero, suc, ℤ, pos, ◌-ℤ◌, ◌≤ℤ◌, wrap, wrap-sub, IsSmall, leb_ℤ, String, false, none, some,
  lookup, insert, lookup-insert_self, ◌≡◌, refl, ◌↔◌, nat_eq, string_eq, Bool-cases, inl, inr,
  arith,
}
use mmo_game.Block.{
  int, float, string, Metadata, as_float, Behavior, air, stone, grass, water, dirt, deep_water,
  tree, cactus, simple, Registry, get, water_block_id, air_block_id,
}
use mmo_game.Block.Solid.{stone_interaction, dirt_interaction, air_interaction}
use mmo_game.Block.Fluid.{water_interaction}
use mmo_game.Block.Grass.{grass_interaction}
use mmo_game.Block.Dispatch.{id, handle_interaction, initial_registry, block_action}

leb-sub : (a b : ℤ) → leb_ℤ (a -ℤ b) (pos 0) ≡ leb_ℤ a b
unfolding ◌-ℤ◌
leb-sub a b = ground arith

module _ {F : Type 0} (to_int : F → ℤ) (to_uint16 : F → ℕ) where
  -- For every behaviour, an interaction whose result is not a success returns the behaviour's own
  -- block and the metadata unchanged.
  pub refused_unchanged :
      (registry : Registry) (b : Behavior) (action : String) (current act : Metadata F)
      → (handle_interaction to_int to_uint16 registry b action current act).2.success ≡ false
      → ((handle_interaction to_int to_uint16 registry b action current act).0 ≡ id b)
        × ((handle_interaction to_int to_uint16 registry b action current act).1 ≡ current)
  unfolding handle_interaction id stone_interaction dirt_interaction air_interaction
      water_interaction grass_interaction
  refused_unchanged registry air action current act h = ground arith
  refused_unchanged registry stone action current act h = ground arith
  refused_unchanged registry grass action current act h = ground arith
  refused_unchanged registry water action current act h = ground arith
  refused_unchanged registry dirt action current act h = ground arith
  refused_unchanged registry deep_water action current act h = (refl, refl)
  refused_unchanged registry tree action current act h = (refl, refl)
  refused_unchanged registry cactus action current act h = (refl, refl)
  refused_unchanged registry (simple n name) action current act h = (refl, refl)

  -- Where hardness and strength are JSON numbers below 2^62 in size, mining stone leaves air
  -- exactly when the strength reaches the hardness.
  pub mine_breaks_iff :
      (registry : Registry) (current act : Metadata F) (h s : F)
      → lookup "hardness" current ≡ some (float h)
      → lookup "strength" act ≡ some (float s)
      → IsSmall (to_int h)
      → IsSmall (to_int s)
      → ((handle_interaction to_int to_uint16 registry stone "mine" current act).0 ≡ air_block_id)
        ↔ (to_int h ≤ℤ to_int s)
  unfolding handle_interaction stone_interaction
  mine_breaks_iff registry current act h s eh es kh ks =
      rw (eh, es, wrap-sub (to_int h) (to_int s) kh ks, leb-sub (to_int h) (to_int s))
        (elim (Bool-cases (leb_ℤ (to_int h) (to_int s))) [
          | inl t ↦ rw t (λ _. ground arith, λ _. refl)
          | inr t ↦ rw t (λ e. ground arith, λ e. ground arith)
        ])

  -- Taking water with a bucket, again and again: the handler stores the block and the metadata
  -- that each interaction returns.
  pub repeat_action : ℕ → Registry → String → ℕ × Metadata F → ℕ → Metadata F → ℕ × Metadata F
  repeat_action zero registry action (id, payload) block_id act = (id, payload)
  repeat_action (suc n) registry action (id, payload) block_id act =
      let r = block_action to_int to_uint16 registry action (id, payload) block_id act in
      repeat_action n registry action (r.0, r.1) block_id act

  scoop_int :
      (current act : Metadata F) (block_id : ℕ)
      → as_float (lookup "level" current) ≡ none
      → lookup "tool" act ≡ some (string "bucket")
      → let r =
          block_action to_int to_uint16 initial_registry "use"
            (water_block_id, current)
            block_id
            act in
        (r.0 ≡ water_block_id) × (lookup "level" r.1 ≡ some (int (pos 4)))
  unfolding block_action initial_registry get lookup handle_interaction water_interaction wrap ◌-ℤ◌
      insert
  scoop_int current act block_id e t =
      rw t (rw e (refl, lookup-insert_self "level" (int (pos 4)) current))

  -- Water whose level is not a JSON number is still water, with level 4, after any positive number
  -- of uses of a bucket.
  pub bucket_never_empties :
      (n : ℕ) (current act : Metadata F) (block_id : ℕ)
      → as_float (lookup "level" current) ≡ none
      → lookup "tool" act ≡ some (string "bucket")
      → let r =
          repeat_action (suc n) initial_registry "use" (water_block_id, current) block_id act in
        (r.0 ≡ water_block_id) × (lookup "level" r.1 ≡ some (int (pos 4)))
  unfolding repeat_action
  bucket_never_empties zero current act block_id e t = scoop_int current act block_id e t
  bucket_never_empties (suc n) current act block_id e t =
      let once = scoop_int current act block_id e t in
      rw (once.0, repeat_action) (bucket_never_empties n _ act block_id (rw once.1 refl) t)
