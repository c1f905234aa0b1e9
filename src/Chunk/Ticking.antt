-- ===== src/Chunk/Ticking.antt =====
-- The set of ticking blocks of a chunk is exact.
use mmo_game.Prelude.{
  ℕ, ◌==◌, Bool, true, false, Option, none, some, List, ◌≡◌, refl, inl, inr, All, sym, Bool-cases,
  arith, lookup, lookup-insert, lookup-delete, subst, if◌then◌else◌, leb, nat_eq,
}
use mmo_game.Vec.{Vec2, vec2_eq}
use mmo_game.Block.{Registry, get}
use mmo_game.Block.Dispatch.{id, needs_tick}
use mmo_game.Chunk.{
  Chunk, BlockCoord, CoordSet, coord_eq, coord_beq, at, ticks, in_range, set_member, write_block,
  layer_active, max_layers, new_chunk, write_layer, write_behavior, set_block_layer,
  set_block_with_behavior, set_block_metadata_layer, write_note, is_nil,
}
use mmo_game.Chunk.Edits.{Edit, put, place, note, edit, edits, edits_keep}

abbrev pub is_some : Option (Unit {0}) → Bool
is_some none = false
is_some (some _) = true

abbrev pub member : BlockCoord → CoordSet → Bool
member k s = is_some (lookup k s)

member-set :
    (present : Bool) (k j : BlockCoord) (s : CoordSet)
    → member j (set_member present k s) ≡ (if coord_beq k j then present else member j s)
member-set true k j s =
    rw (lookup-insert j k tt s)
      (elim (Bool-cases (coord_beq k j)) [ inl h ↦ rw h refl | inr h ↦ rw h refl ])
member-set false k j s =
    rw (lookup-delete j k s)
      (elim (Bool-cases (coord_beq k j)) [ inl h ↦ rw h refl | inr h ↦ rw h refl ])

module _ {F : Type 0} (registry : Registry) where
  -- A block of the active layer is in the set exactly when its behaviour wants ticks.
  abbrev pub TicksExact : Chunk F → Type 0
  TicksExact c =
      (p : Vec2)
      → member (at layer_active p) c.tickable ≡ ticks (get (c.blocks (at layer_active p)) registry)

  -- One coordinate is written, and the set follows the new block's wish.
  mark-TicksExact :
      (c : Chunk F) (p : Vec2) (block_id : ℕ) (wish : Bool)
      → TicksExact c
      → wish ≡ ticks (get block_id registry)
      → (q : Vec2)
      → member (at layer_active q) (set_member wish (at layer_active p) c.tickable)
        ≡ ticks
            (get (write_block c.blocks (at layer_active p) block_id (at layer_active q)) registry)
  mark-TicksExact c p block_id wish t w q =
      rw (member-set wish (at layer_active p) (at layer_active q) c.tickable)
        (elim (Bool-cases (coord_beq (at layer_active p) (at layer_active q))) [
          | inl same ↦ rw same w
          | inr other ↦ rw other (t q)
        ])

  put-TicksExact :
      (c : Chunk F) (layer : ℕ) (p : Vec2) (block_id : ℕ)
      → TicksExact c
      → TicksExact (write_layer registry c layer p block_id)
  unfolding write_layer
  put-TicksExact c layer p block_id t q = elim (Bool-cases (layer == layer_active)) [
    | inl active ↦
        let l : layer ≡ layer_active = ground arith in
        rw l (mark-TicksExact c p block_id (ticks (get block_id registry)) t refl q)
    | inr other ↦ rw other (t q)
  ]

  set_block_layer-TicksExact :
      (c : Chunk F) (layer : ℕ) (p : Vec2) (block_id : ℕ) (d : Chunk F)
      → TicksExact c
      → set_block_layer registry c layer p block_id ≡ some d
      → TicksExact d
  unfolding set_block_layer
  set_block_layer-TicksExact c layer p block_id d t e = elim (Bool-cases (leb max_layers layer)) [
    | inl far ↦ let same : c ≡ d = ground arith in subst TicksExact same t
    | inr near ↦ elim (Bool-cases (in_range p)) [
      | inl good ↦
          let same : write_layer registry c layer p block_id ≡ d = ground arith in
          subst TicksExact same (put-TicksExact c layer p block_id t)
      | inr bad ↦ ground arith
    ]
  ]

  -- A behaviour that an edit places is registered under its own id.
  abbrev pub Registered : Edit F → Type 0
  Registered (place p behavior) = get (id behavior) registry ≡ some behavior
  Registered (put _ _ _) = Unit {0}
  Registered (note _ _ _ _) = Unit {0}

  edit-TicksExact :
      (c : Chunk F) (e : Edit F) (d : Chunk F)
      → Registered e
      → TicksExact c
      → edit registry c e ≡ some d
      → TicksExact d
  unfolding edit set_block_with_behavior set_block_metadata_layer
  edit-TicksExact c (put layer p block_id) d g t h =
      set_block_layer-TicksExact c layer p block_id d t h
  edit-TicksExact c (place p behavior) d g t h = elim (Bool-cases (in_range p)) [
    | inl good ↦
        let same : write_behavior c p behavior ≡ d = ground arith in
        subst TicksExact same (λ q.
          unfold write_behavior in
          mark-TicksExact c p (id behavior) (needs_tick behavior) t (rw g refl) q)
    | inr bad ↦ ground arith
  ]
  edit-TicksExact c (note layer p key value) d g t h =
      elim (Bool-cases (is_nil (lookup (at layer p) c.metadata))) [
        | inl nil ↦ cc (rw nil at h)
        | inr there ↦
            let same : write_note c layer p key value ≡ d = ground arith in
            subst TicksExact same (unfold write_note in t)
      ]

  -- After any sequence of writes to a new chunk that does not panic, a coordinate of the active
  -- layer is in the set of ticking blocks exactly when its block has a behaviour that wants ticks;
  -- air must want none, and what SetBlockWithBehavior places must be registered under its own id.
  pub edits-TicksExact :
      (coords : Vec2) (es : List (Edit F)) (d : Chunk F)
      → ticks (get 0 registry) ≡ false
      → All Registered es
      → edits registry (some (new_chunk coords)) es ≡ some d
      → TicksExact d
  edits-TicksExact coords es d air g h =
      edits_keep registry TicksExact Registered edit-TicksExact es (new_chunk coords) d g
        (λ q. unfold new_chunk lookup in sym air) h
