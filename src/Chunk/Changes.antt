-- ===== src/Chunk/Changes.antt =====
-- The change set of a chunk misses nothing.
use mmo_game.Prelude.{
  ℕ, suc, ◌+◌, ◌≤◌, ◌<◌, ◌^◌, pos, ◌+ℤ◌, wrap, String, false, Option, none, some, List, [], ◌∷◌,
  ◌≡◌, refl, ◌∙◌, inl, inr, All, length, Bool-cases, Option-cases, arith, lookup, insert,
  lookup-insert, leb, subst,
}
use mmo_game.Vec.{Vec2}
use mmo_game.Block.{Value, Metadata, Behavior, Registry}
use mmo_game.Chunk.{
  Chunk, BlockCoord, CoordSet, coord_eq, coord_beq, at, in_range, layer_active, max_layers,
  write_layer, write_behavior, created_metadata, set_block_layer, set_block_with_behavior,
  set_block_metadata_layer, write_note, is_nil, created_map, clear_changes, has_changes,
  metadata_at,
}
use mmo_game.Chunk.Edits.{Edit, put, place, note, edit, edits, edits_keep}
use mmo_game.Chunk.Ticking.{member}

member-insert :
    (k j : BlockCoord) (s : CoordSet)
    → member j (insert k tt s) ≡ false
    → (coord_beq k j ≡ false) × (member j s ≡ false)
member-insert k j s h = elim (Bool-cases (coord_beq k j)) [
  | inl same ↦ cc (rw (lookup-insert j k tt s, same) at h)
  | inr other ↦ (other, rw (lookup-insert j k tt s, other) at h)
]

member-nil : (k : BlockCoord) → member k [] ≡ false
unfolding lookup
member-nil k = refl

zero_plus : (n : ℕ) → 0 + n ≡ n
zero_plus n = omega arith

module _ {F : Type 0} where
  -- The block and the metadata at a coordinate are those of another chunk.
  abbrev pub Same : Chunk F → Chunk F → BlockCoord → Type 0
  Same c d k = (d.blocks k ≡ c.blocks k) × (lookup k d.metadata ≡ lookup k c.metadata)

  abbrev pub Tracked : Chunk F → Chunk F → Type 0
  Tracked base c = (k : BlockCoord) → member k c.changes ≡ false → Same base c k

  lookup-created :
      (behavior : Behavior) (j k : BlockCoord) (m : List (BlockCoord × Option (Metadata F)))
      → coord_beq j k ≡ false
      → lookup k (created_metadata behavior j m) ≡ lookup k m
  unfolding created_metadata
  lookup-created behavior j k m other = go (lookup j m)
    where
      go :
          (o : Option (Option (Metadata F)))
          → lookup k (elim o [ none ↦ insert j (created_map behavior) m | some _ ↦ m ]) ≡ lookup k m
      go none = rw (lookup-insert k j (created_map behavior) m, other) refl
      go (some _) = refl

  put-Tracked :
      (registry : Registry) (base c : Chunk F) (layer : ℕ) (p : Vec2) (block_id : ℕ)
      → Tracked base c
      → Tracked base (write_layer registry c layer p block_id)
  unfolding write_layer
  put-Tracked registry base c layer p block_id t k h =
      let (other, old) = member-insert (at layer p) k c.changes h in rw other (t k old)

  place-Tracked :
      (base c : Chunk F) (p : Vec2) (behavior : Behavior)
      → Tracked base c
      → Tracked base (write_behavior c p behavior)
  unfolding write_behavior
  place-Tracked base c p behavior t k h =
      let (other, old) = member-insert (at layer_active p) k c.changes h in
      rw (other, lookup-created behavior (at layer_active p) k c.metadata other) (t k old)

  note-Tracked :
      (base c : Chunk F) (layer : ℕ) (p : Vec2) (key : String) (value : Value F)
      → Tracked base c
      → Tracked base (write_note c layer p key value)
  unfolding write_note
  note-Tracked base c layer p key value t k h =
      let (other, old) = member-insert (at layer p) k c.changes h in
      rw
        (
          lookup-insert k (at layer p) (some (insert key value (metadata_at c (at layer p))))
              c.metadata,
          other,
        )
        (t k old)

  -- What an edit leaves: the chunk itself, or one of the three writes.
  edit_cases {ℓ} :
      (P : Chunk F → Type ℓ) (registry : Registry) (c : Chunk F) (e : Edit F) (d : Chunk F)
      → P c
      → ((layer : ℕ) (p : Vec2) (block_id : ℕ) → P (write_layer registry c layer p block_id))
      → ((p : Vec2) (behavior : Behavior) → P (write_behavior c p behavior))
      → ((layer : ℕ) (p : Vec2) (key : String) (value : Value F)
          → P (write_note c layer p key value))
      → edit registry c e ≡ some d
      → P d
  unfolding edit set_block_layer set_block_with_behavior set_block_metadata_layer
  edit_cases P registry c (put layer p block_id) d same w b m h =
      elim (Bool-cases (leb max_layers layer)) [
        | inl far ↦ let q : c ≡ d = ground arith in subst P q same
        | inr near ↦ elim (Bool-cases (in_range p)) [
          | inl good ↦
              let q : write_layer registry c layer p block_id ≡ d = ground arith in
              subst P q (w layer p block_id)
          | inr bad ↦ cc (rw (near, bad) at h)
        ]
      ]
  edit_cases P registry c (place p behavior) d same w b m h = elim (Bool-cases (in_range p)) [
    | inl good ↦ let q : write_behavior c p behavior ≡ d = ground arith in subst P q (b p behavior)
    | inr bad ↦ cc (rw bad at h)
  ]
  edit_cases P registry c (note layer p key value) d same w b m h =
      elim (Bool-cases (is_nil (lookup (at layer p) c.metadata))) [
        | inl nil ↦ cc (rw nil at h)
        | inr there ↦
            let q : write_note c layer p key value ≡ d = ground arith in
            subst P q (m layer p key value)
      ]

  edit-Tracked :
      (registry : Registry) (base c : Chunk F) (e : Edit F) (d : Chunk F)
      → Tracked base c
      → edit registry c e ≡ some d
      → Tracked base d
  edit-Tracked registry base c e d t h =
      edit_cases (Tracked base) registry c e d t
        (λ layer p n. put-Tracked registry base c layer p n t) (λ p b. place-Tracked base c p b t)
        (λ layer p k v. note-Tracked base c layer p k v t) h

  -- Since the last ClearChanges, after any sequence of block and metadata writes that does not
  -- panic, the block and the metadata at every coordinate outside the change set are as they were.
  pub edits-Tracked :
      (registry : Registry) (base : Chunk F) (es : List (Edit F)) (d : Chunk F)
      → edits registry (some (clear_changes base)) es ≡ some d
      → (k : BlockCoord) → member k d.changes ≡ false
      → (d.blocks k ≡ base.blocks k) × (lookup k d.metadata ≡ lookup k base.metadata)
  edits-Tracked registry base es d h =
      edits_keep registry (Tracked base) (λ _. Unit {0})
        (λ c e d' _. edit-Tracked registry base c e d') es (clear_changes base) d (all_any es)
        (λ k _. unfold clear_changes in (refl, refl)) h
    where
      all_any : (l : List (Edit F)) → All (λ _. Unit {0}) l
      all_any [] = tt
      all_any (x ∷ xs) = (tt, all_any xs)

  -- The counter counts the writes, so it tells whether there was one.
  abbrev Counted : ℕ → Chunk F → Type 0
  Counted n c = (m : ℕ) × (c.change_counter ≡ pos m) × (m ≤ n) × (m ≡ 0 → c.changes ≡ [])

  bump-Counted :
      (n : ℕ) (c d : Chunk F)
      → n < 2 ^ 62
      → Counted n c
      → d.change_counter ≡ wrap (c.change_counter +ℤ pos 1)
      → Counted (suc n) d
  unfolding ◌+ℤ◌ wrap
  bump-Counted n c d h (m, e, l, z) q =
      (m + 1, q ∙ (rw e (ground arith)), omega arith, λ k. absurd (omega arith))

  edit-Counted :
      (registry : Registry) (n : ℕ) (c : Chunk F) (e : Edit F) (d : Chunk F)
      → n < 2 ^ 62
      → Counted n c
      → edit registry c e ≡ some d
      → Counted (suc n) d
  edit-Counted registry n c e d b i h =
      edit_cases (Counted (suc n)) registry c e d (i.0, i.1, omega arith, i.3)
        (λ layer p v.
          bump-Counted n c (write_layer registry c layer p v) b i (unfold write_layer in refl))
        (λ p v. bump-Counted n c (write_behavior c p v) b i (unfold write_behavior in refl))
        (λ layer p k v. bump-Counted n c (write_note c layer p k v) b i (unfold write_note in refl))
        h

  edits-Counted :
      (registry : Registry) (es : List (Edit F)) (n : ℕ) (c d : Chunk F)
      → n + length es < 2 ^ 62
      → Counted n c
      → edits registry (some c) es ≡ some d
      → Counted (n + length es) d
  unfolding edits
  edits-Counted registry [] n c d b i h =
      let same : c ≡ d = ground arith in
      let e : n ≡ n + 0 = omega arith in subst (λ (m : ℕ). Counted m d) e (subst (Counted n) same i)
  edits-Counted registry (x ∷ es) n c d b i h = elim (Option-cases (edit registry c x)) [
    | inl panic ↦ cc (rw (panic, edits) at h)
    | inr (c', ok) ↦
        let e : suc n + length es ≡ n + suc (length es) = omega arith in
        subst (λ (m : ℕ). Counted m d) e
          (edits-Counted registry es (suc n) c' d (omega arith)
            (edit-Counted registry n c x c' (omega arith) i ok) (rw (ok, edits) at h))
  ]

  -- A chunk whose HasChanges is false holds at every coordinate what it held at the last
  -- ClearChanges, after any sequence of fewer than 2^62 writes that does not panic.
  pub has_changes_complete :
      (registry : Registry) (base : Chunk F) (es : List (Edit F)) (d : Chunk F)
      → length es < 2 ^ 62
      → edits registry (some (clear_changes base)) es ≡ some d
      → has_changes d ≡ false
      → (k : BlockCoord)
      → (d.blocks k ≡ base.blocks k) × (lookup k d.metadata ≡ lookup k base.metadata)
  unfolding has_changes
  has_changes_complete registry base es d b h none_reported k =
      edits-Tracked registry base es d h k (empty_set (counted.3 zero_count))
    where
      counted : Counted (length es) d
      counted =
          subst (λ (m : ℕ). Counted m d) (zero_plus (length es))
            (edits-Counted registry es 0 (clear_changes base) d (omega arith)
              (unfold clear_changes in (0, refl, omega arith, λ _. refl)) h)

      zero_count : counted.0 ≡ 0
      zero_count = ground (arith, counted.1)

      empty_set : d.changes ≡ [] → member k d.changes ≡ false
      empty_set e = rw e (member-nil k)
