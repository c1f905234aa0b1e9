-- ===== src/World/Writes.antt =====
-- What a write to the world's chunks changes in the world's blocks.
use mathlib.Core.Option.{map as map_option}
use mmo_game.Prelude.{
  ℕ, Bool, true, false, Option, some, ◌≡◌, ◌↔◌, refl, ap, sym, ◌∙◌, inl, inr, Bool-cases,
  if◌then◌else◌, ◌&&◌, beq_cases, lookup,
}
use mmo_game.Vec.{Vec2, vec2_eq, vec2_beq, to_chunk_coords, to_big_chunk_coords, local_in_chunk}
use mmo_game.Vec.Grid.{from_chunk, from_chunk-split, to_big_chunk_coords-chunk}
use mmo_game.Chunk.{Chunk, BlockCoord, coord_eq, coord_beq, at}
use mmo_game.Chunk.Cells.{Cell, Cells, cells_of, updated}
use mmo_game.BigChunk.{BigChunk}
use mmo_game.BigChunk.Write.{matched}
use mmo_game.World.{World, write_back, kept_in, written}
use mmo_game.World.View.{chunk_at, view, chunk_at-keep}

same_test : (a b : Bool) → (a ≡ true) ↔ (b ≡ true) → a ≡ b
same_test true b h = sym (h.0 refl)
same_test false true h = h.1 refl
same_test false false h = refl

-- In one chunk, two blocks are the same just when their local coordinates are.
local_beq :
    (l m : ℕ) (p q : Vec2)
    → to_chunk_coords p ≡ to_chunk_coords q
    → coord_beq (at l (local_in_chunk p)) (at m (local_in_chunk q)) ≡ coord_beq (at l p) (at m q)
local_beq l m p q e =
    same_test (coord_beq (at l (local_in_chunk p)) (at m (local_in_chunk q)))
      (coord_beq (at l p) (at m q))
      (
        λ h.
            let s = (coord_eq.test_iff (at l (local_in_chunk p)) (at m (local_in_chunk q))).0 h in
            (coord_eq.test_iff (at l p) (at m q)).1 (λ i. record {
              layer = (s i).layer;
              position =
                  (sym (from_chunk-split p).1
                      ∙ (λ j. from_chunk (e j) (s j).position)
                      ∙ (from_chunk-split q).1)
                    i;
            }),
        λ h.
            let s = (coord_eq.test_iff (at l p) (at m q)).0 h in
            (coord_eq.test_iff (at l (local_in_chunk p)) (at m (local_in_chunk q))).1
              (λ i. at (s i).layer (local_in_chunk (s i).position)),
      )

module _ {F : Type 0} (generate : Vec2 → Chunk F) where
  -- In the chunk that is written, a block's cell is the one under its local coordinates.
  near_cell :
      (w : World F) (l : ℕ) (p : Vec2) (b : BlockCoord) (cell : Cell F)
      → to_chunk_coords p ≡ to_chunk_coords b.position
      → updated
          (cells_of (chunk_at generate w (to_big_chunk_coords p) (to_chunk_coords p)))
          (at l (local_in_chunk p))
          cell
          (at b.layer (local_in_chunk b.position))
        ≡ updated (view generate w) (at l p) cell b
  near_cell w l p b cell e =
      let k : BlockCoord = at b.layer (local_in_chunk b.position) in
      rw (local_beq l b.layer p b.position e) (λ i.
        if coord_beq (at l p) b
        then cell
        else cells_of (chunk_at generate w (to_big_chunk_coords-chunk p b.position e i) (e i)) k)

  far_beq :
      (l : ℕ) (p : Vec2) (b : BlockCoord)
      → vec2_beq (to_chunk_coords p) (to_chunk_coords b.position) ≡ false
      → coord_beq (at l p) b ≡ false
  far_beq l p b f = elim (beq_cases coord_eq (at l p) b) [
    | inr g ↦ g
    | inl (t, e) ↦
        let s : vec2_beq (to_chunk_coords p) (to_chunk_coords b.position) ≡ true =
          (vec2_eq.test_iff (to_chunk_coords p) (to_chunk_coords b.position)).1
            (λ i. to_chunk_coords (e i).position) in
        cc
  ]

  kept_cell :
      (w : World F) (l : ℕ) (p : Vec2) (chunk : Chunk F) (cell : Cell F) (b : BlockCoord)
      → cells_of chunk
        ≡ updated
            (cells_of (chunk_at generate w (to_big_chunk_coords p) (to_chunk_coords p)))
            (at l (local_in_chunk p))
            cell
      → (if vec2_beq (to_big_chunk_coords p) (to_big_chunk_coords b.position)
            && vec2_beq (to_chunk_coords p) (to_chunk_coords b.position)
          then cells_of chunk (at b.layer (local_in_chunk b.position))
          else view generate w b)
        ≡ updated (view generate w) (at l p) cell b
  kept_cell w l p chunk cell b changed =
      elim (beq_cases vec2_eq (to_chunk_coords p) (to_chunk_coords b.position)) [
        | inl (t, e) ↦
            let u : vec2_beq (to_big_chunk_coords p) (to_big_chunk_coords b.position) ≡ true =
              (vec2_eq.test_iff (to_big_chunk_coords p) (to_big_chunk_coords b.position)).1
                (to_big_chunk_coords-chunk p b.position e) in
            rw (u, t)
              (ap (λ (cells : Cells F). cells (at b.layer (local_in_chunk b.position))) changed
                ∙ near_cell w l p b cell e)
        | inr f ↦
            elim (Bool-cases (vec2_beq (to_big_chunk_coords p) (to_big_chunk_coords b.position))) [
              | inl u ↦ rw (u, f, far_beq l p b f) refl
              | inr u ↦ rw (u, far_beq l p b f) refl
            ]
      ]

  if_cells :
      (t : Bool) (a c : Chunk F) (k : BlockCoord)
      → cells_of (if t then a else c) k ≡ (if t then cells_of a k else cells_of c k)
  if_cells true a c k = refl
  if_cells false a c k = refl

  -- A chunk that differs in one cell is written back: the world differs in that block's cell.
  pub view-write_back :
      (w : World F) (l : ℕ) (p : Vec2) (bc : BigChunk F) (chunk : Chunk F) (cell : Cell F)
      → lookup (to_big_chunk_coords p) w.big_chunks ≡ some bc
      → cells_of chunk
        ≡ updated
            (cells_of (chunk_at generate w (to_big_chunk_coords p) (to_chunk_coords p)))
            (at l (local_in_chunk p))
            cell
      → view generate (write_back w (to_big_chunk_coords p) (to_chunk_coords p) chunk)
        ≡ updated (view generate w) (at l p) cell
  view-write_back w l p bc chunk cell there changed i b =
      let k = to_big_chunk_coords p in
      let c = to_chunk_coords p in
      let j = to_big_chunk_coords b.position in
      let d = to_chunk_coords b.position in
      let here = at b.layer (local_in_chunk b.position) in
      let steps : view generate (write_back w k c chunk) b
          ≡ updated (view generate w) (at l p) cell b =
        ap (λ (o : Option (BigChunk F)). view generate (kept_in w k c chunk o) b) there
        ∙ ap (λ (ch : Chunk F). cells_of ch here) (chunk_at-keep generate w k c j d bc chunk there)
        ∙ if_cells (vec2_beq k j && vec2_beq c d) chunk (chunk_at generate w j d) here
        ∙ kept_cell w l p chunk cell b changed in
      steps i

  -- The same, for a write that may panic.
  pub view-written :
      (w : World F) (l : ℕ) (p : Vec2) (bc : BigChunk F) (o : Option (Chunk F))
      (cell : Option (Cell F))
      → lookup (to_big_chunk_coords p) w.big_chunks ≡ some bc
      → map_option cells_of o
        ≡ map_option
            (updated
              (cells_of (chunk_at generate w (to_big_chunk_coords p) (to_chunk_coords p)))
              (at l (local_in_chunk p)))
            cell
      → map_option (view generate) (written w (to_big_chunk_coords p) (to_chunk_coords p) o)
        ≡ map_option (updated (view generate w) (at l p)) cell
  view-written w l p bc o cell there h =
      elim (matched cells_of
        (updated (cells_of (chunk_at generate w (to_big_chunk_coords p) (to_chunk_coords p)))
          (at l (local_in_chunk p)))
        o cell h) [
          | inl (panic, nil) ↦ rw (panic, nil) refl
          | inr (chunk, c, ok, made, changed) ↦
              rw (ok, made) (ap some (view-write_back w l p bc chunk c there changed))
        ]
