-- ===== src/World/View.antt =====
-- The world as one cell for each layer of each block, whatever has been created and generated.
use mmo_game.Prelude.{
  Bool, true, false, Option, none, some, ◌≡◌, refl, ap, sym, ◌∙◌, inl, inr, Option-cases,
  if◌then◌else◌, ◌&&◌, beq_cases, lookup, lookup-insert, lookup-insert_self,
}
use mmo_game.Vec.{Vec2, vec2_eq, vec2_beq, to_chunk_coords, to_big_chunk_coords, local_in_chunk}
use mmo_game.Chunk.{Chunk, coord_eq, at}
use mmo_game.Chunk.Cells.{Cells, cells_of}
use mmo_game.Events.{Entities}
use mmo_game.BigChunk.{BigChunk, new_big_chunk}
use mmo_game.World.{
  World, store, keep_chunk, create_big_chunk, reach_big_chunk, found_big_chunk, found_chunk, reach,
}

-- The chunk under given coordinates of a BigChunk, as far as it is there.
abbrev pub chunk_in : {F : Type 0} → Vec2 → Option (BigChunk F) → Option (Chunk F)
chunk_in c none = none
chunk_in c (some bc) = lookup c bc.chunks

module _ {F : Type 0} (generate : Vec2 → Chunk F) where
  abbrev pub chunk_or_made : Vec2 → Option (Chunk F) → Chunk F
  chunk_or_made c none = generate c
  chunk_or_made c (some chunk) = chunk

  abbrev pub chunk_at : World F → Vec2 → Vec2 → Chunk F
  chunk_at w k c = chunk_or_made c (chunk_in c (lookup k w.big_chunks))

  -- The world's blocks.
  abbrev pub view : World F → Cells F
  view w b =
      cells_of (chunk_at w (to_big_chunk_coords b.position) (to_chunk_coords b.position))
        (at b.layer (local_in_chunk b.position))

module _ {F : Type 0} where
  pub chunk_in-store :
      (w : World F) (k j c : Vec2) (bc : BigChunk F)
      → chunk_in c (lookup j (store w k bc).big_chunks)
        ≡ (if vec2_beq k j then lookup c bc.chunks else chunk_in c (lookup j w.big_chunks))
  chunk_in-store w k j c bc = rw (lookup-insert j k bc w.big_chunks) (decided (vec2_beq k j))
    where
      decided :
          (t : Bool)
          → chunk_in c (if t then some bc else lookup j w.big_chunks)
            ≡ (if t then lookup c bc.chunks else chunk_in c (lookup j w.big_chunks))
      decided true = refl
      decided false = refl

  IsThere : World F → Vec2 → Type 0
  IsThere w k = (bc : BigChunk F) × (lookup k w.big_chunks ≡ some bc)

module _ {F : Type 0} (load : Vec2 → Entities F → Entities F) where
  -- A BigChunk that is created has no chunks yet.
  chunk_in-created :
      (w : World F) (k j c : Vec2)
      → lookup k w.big_chunks ≡ none
      → chunk_in c (lookup j (store w k (create_big_chunk load k)).big_chunks)
        ≡ chunk_in c (lookup j w.big_chunks)
  unfolding create_big_chunk new_big_chunk lookup
  chunk_in-created w k j c missing = elim (beq_cases vec2_eq k j) [
    | inl (t, e) ↦
        let gone : chunk_in c (lookup j w.big_chunks) ≡ none =
          ap (λ (i : Vec2). chunk_in c (lookup i w.big_chunks)) (sym e) ∙ ap (chunk_in c) missing in
        chunk_in-store w k j c (create_big_chunk load k) ∙ rw (t, gone) refl
    | inr f ↦ chunk_in-store w k j c (create_big_chunk load k) ∙ rw f refl
  ]

  -- A BigChunk is there once it has been asked for, and the chunks are those that were there.
  pub reached :
      (w : World F) (k : Vec2)
      → (bc : BigChunk F) × (w' : World F) × (reach_big_chunk load w k ≡ (w', bc))
        × (lookup k w'.big_chunks ≡ some bc)
        × ((j c : Vec2) → chunk_in c (lookup j w'.big_chunks) ≡ chunk_in c (lookup j w.big_chunks))
  unfolding reach_big_chunk found_big_chunk
  reached w k = elim (Option-cases (lookup k w.big_chunks)) [
    | inl missing ↦ (
      create_big_chunk load k,
      store w k (create_big_chunk load k),
      rw missing refl,
      lookup-insert_self k (create_big_chunk load k) w.big_chunks,
      λ j c. chunk_in-created w k j c missing,
    )
    | inr (bc, found) ↦ (bc, w, rw found refl, found, λ j c. refl)
  ]

module _ {F : Type 0} (generate : Vec2 → Chunk F) where
  pub chunk_at-keep :
      (w : World F) (k c j d : Vec2) (bc : BigChunk F) (chunk : Chunk F)
      → lookup k w.big_chunks ≡ some bc
      → chunk_at generate (store w k (keep_chunk bc c chunk)) j d
        ≡ (if vec2_beq k j && vec2_beq c d then chunk else chunk_at generate w j d)
  chunk_at-keep w k c j d bc chunk there = elim (beq_cases vec2_eq k j) [
    | inl (t, e) ↦
        let here : lookup j w.big_chunks ≡ some bc =
          ap (λ (i : Vec2). lookup i w.big_chunks) (sym e) ∙ there in
        ap (chunk_or_made generate d) (chunk_in-store w k j d (keep_chunk bc c chunk))
        ∙ rw (t, here, lookup-insert d c chunk bc.chunks) (decided bc (vec2_beq c d))
    | inr f ↦
        ap (chunk_or_made generate d) (chunk_in-store w k j d (keep_chunk bc c chunk)) ∙ rw f refl
  ]
    where
      decided :
          (bc : BigChunk F) (t : Bool)
          → chunk_or_made generate d (if t then some chunk else lookup d bc.chunks)
            ≡ (if t then chunk else chunk_or_made generate d (lookup d bc.chunks))
      decided bc true = refl
      decided bc false = refl

module _ {F : Type 0} (load : Vec2 → Entities F → Entities F) (generate : Vec2 → Chunk F) where
  -- A chunk that has just been generated is the one that the world showed.
  made_same :
      (w : World F) (k c j d : Vec2)
      → chunk_in c (lookup k w.big_chunks) ≡ none
      → (if vec2_beq k j && vec2_beq c d then generate c else chunk_at generate w j d)
        ≡ chunk_at generate w j d
  made_same w k c j d missing = elim (beq_cases vec2_eq k j) [
    | inr f ↦ rw f refl
    | inl (t, e) ↦ elim (beq_cases vec2_eq c d) [
      | inr f ↦ rw (t, f) refl
      | inl (u, g) ↦
          let made : chunk_at generate w k c ≡ generate c = ap (chunk_or_made generate c) missing in
          rw (t, u) (sym made ∙ (λ i. chunk_at generate w (e i) (g i)))
    ]
  ]

  found_at :
      (w : World F) (k c : Vec2) (r : World F × BigChunk F)
      → reach_big_chunk load w k ≡ r
      → reach load generate w k c ≡ found_chunk load generate r.0 k r.1 c (lookup c r.1.chunks)
  unfolding reach
  found_at w k c r e =
      ap (λ (r : World F × BigChunk F). found_chunk load generate r.0 k r.1 c (lookup c r.1.chunks))
        e

  -- A chunk that is asked for is the one that the world shows; it is then there, and the world
  -- shows the same chunks as before.
  pub reach_lem :
      (w : World F) (k c : Vec2)
      → (w' : World F) × (reach load generate w k c ≡ (w', chunk_at generate w k c))
        × ((bc : BigChunk F) × (lookup k w'.big_chunks ≡ some bc))
        × ((j d : Vec2) → chunk_at generate w' j d ≡ chunk_at generate w j d)
  reach_lem w k c =
      let (bc, w', q, there, same) = reached load w k in
      let here : lookup c bc.chunks ≡ chunk_in c (lookup k w.big_chunks) =
        sym (ap (chunk_in c) there) ∙ same k c in
      elim (Option-cases (lookup c bc.chunks)) [
        | inl missing ↦
            let gone : chunk_in c (lookup k w.big_chunks) ≡ none = sym here ∙ missing in
            (
              store w' k (keep_chunk bc c (generate c)),
              found_at w k c (w', bc) q ∙ rw (missing, gone) refl,
              (
                keep_chunk bc c (generate c),
                lookup-insert_self k (keep_chunk bc c (generate c)) w'.big_chunks,
              ),
              λ j d.
                  chunk_at-keep generate w' k c j d bc (generate c) there
                  ∙ made_same w' k c j d (ap (chunk_in c) there ∙ missing)
                  ∙ ap (chunk_or_made generate d) (same j d),
            )
        | inr (chunk, found) ↦
            let shown : chunk_in c (lookup k w.big_chunks) ≡ some chunk = sym here ∙ found in
            (
              w',
              found_at w k c (w', bc) q ∙ rw (found, shown) refl,
              (bc, there),
              λ j d. ap (chunk_or_made generate d) (same j d),
            )
      ]
