-- ===== src/World/Total.antt =====
-- When the world's block methods do not panic.
use mathlib.Core.Option.{map as map_option}
use mmo_game.Prelude.{
  ℕ, String, ◌>>=◌, false, Option, none, some, List, [], ◌∷◌, ◌≡◌, refl, sym, inl, inr, Bool-cases,
  subst, insert, string_eq,
}
use mmo_game.Vec.{Vec2}
use mmo_game.Block.{Value, Metadata, Registry}
use mmo_game.Chunk.{Chunk, BlockCoord, coord_eq, coord_beq, at, layer_active, is_nil, or_empty}
use mmo_game.Chunk.Cells.{Cell, Cells, updated, note_cell, note_all, renamed, put_cell}
use mmo_game.Events.{Block, Entities}
use mmo_game.World.{World}
use mmo_game.World.View.{view}
use mmo_game.World.Refine.{put, cell_block, note}
use mmo_game.World.Requests.{
  Request, Answer, read, write, remove, read_value, write_value, serve, answer, in_order,
  in_order-refines, shown, done, block, air_block,
}

-- No metadata map is nil, whatever block it belongs to.
abbrev pub NoNil : {F : Type 0} → Cells F → Type 0
NoNil cells = (k : BlockCoord) → is_nil (cells k).notes ≡ false

-- A step returns a value with a property.
abbrev Returns {ℓ} : {S : Type ℓ} → (S → Type 0) → Option S → Type 0
Returns P none = ⊥
Returns P (some s) = P s

bind-Returns {ℓ μ} :
    {S : Type ℓ} {T : Type μ} (P : S → Type 0) (Q : T → Type 0) (o : Option S) (f : S → Option T)
    → Returns P o
    → ((s : S) → P s → Returns Q (f s))
    → Returns Q (o >>= f)
bind-Returns P Q none f r step = elim r [ ]
bind-Returns P Q (some s) f r step = step s r

module _ {F : Type 0} where
  note_cell-Returns :
      (cell : Cell F) (key : String) (v : Value F)
      → is_nil cell.notes ≡ false
      → Returns (λ (c : Cell F). is_nil c.notes ≡ false) (note_cell cell key v)
  note_cell-Returns cell key v h = rw h refl

  note_all-Returns :
      (payload : Metadata F) (cell : Cell F)
      → is_nil cell.notes ≡ false
      → Returns (λ (c : Cell F). is_nil c.notes ≡ false) (note_all cell payload)
  note_all-Returns [] cell h = h
  note_all-Returns ((key, v) ∷ payload) cell h = rw h (
      note_all-Returns payload
        (record cell { notes = some (some (insert key v (or_empty cell.notes))) }) refl)

  NoNil-updated :
      (cells : Cells F) (k : BlockCoord) (cell : Cell F)
      → NoNil cells
      → is_nil cell.notes ≡ false
      → NoNil (updated cells k cell)
  NoNil-updated cells k cell h there j = elim (Bool-cases (coord_beq k j)) [
    | inl t ↦ rw t there
    | inr t ↦ rw t (h j)
  ]

  updated-Returns :
      (cells : Cells F) (k : BlockCoord) (o : Option (Cell F))
      → NoNil cells
      → Returns (λ (c : Cell F). is_nil c.notes ≡ false) o
      → Returns NoNil (map_option (updated cells k) o)
  updated-Returns cells k none h r = r
  updated-Returns cells k (some cell) h r = NoNil-updated cells k cell h r

  put-Returns :
      (cells : Cells F) (p : Vec2) (layer : ℕ) (b : Block F)
      → NoNil cells
      → Returns NoNil (put cells p layer b)
  unfolding put_cell
  put-Returns cells p layer b h =
      updated-Returns cells (at layer p)
        (note_all (renamed layer (cells (at layer p)) b.id) b.payload) h
        (note_all-Returns b.payload (renamed layer (cells (at layer p)) b.id) (h (at layer p)))

  answered-Returns :
      {A : Type 0} (a : A) (o : Option (Cells F))
      → Returns NoNil o
      → Returns (λ (r : Cells F × A). NoNil r.0) (map_option (λ cells. (cells, a)) o)
  answered-Returns a none r = r
  answered-Returns a (some cells) r = r

  answer-Returns :
      (cells : Cells F) (r : Request F)
      → NoNil cells
      → Returns (λ (r : Cells F × Answer F). NoNil r.0) (answer cells r)
  unfolding answer
  answer-Returns cells (read p layer) h = h
  answer-Returns cells (write p layer b) h =
      answered-Returns done (put cells p layer b) (put-Returns cells p layer b h)
  answer-Returns cells (remove p) h =
      answered-Returns (block (cell_block (cells (at layer_active p))))
        (put cells p layer_active air_block) (put-Returns cells p layer_active air_block h)
  answer-Returns cells (read_value p key) h = h
  answer-Returns cells (write_value p key v) h = answered-Returns done (note cells p key v) (
      updated-Returns cells (at layer_active p) (note_cell (cells (at layer_active p)) key v) h
        (note_cell-Returns (cells (at layer_active p)) key v (h (at layer_active p))))

  in_order-Returns :
      (rs : List (Request F)) (cells : Cells F)
      → NoNil cells
      → Returns (λ (r : Cells F × List (Answer F)). NoNil r.0) (in_order answer cells rs)
  in_order-Returns [] cells h = h
  in_order-Returns (r ∷ rs) cells h =
      bind-Returns (λ (r : Cells F × Answer F). NoNil r.0)
        (λ (r : Cells F × List (Answer F)). NoNil r.0) (answer cells r)
        (λ one. in_order answer one.0 rs >>= (λ more. some (more.0, one.1 ∷ more.1)))
        (answer-Returns cells r h)
        (λ one k.
          bind-Returns (λ (r : Cells F × List (Answer F)). NoNil r.0)
            (λ (r : Cells F × List (Answer F)). NoNil r.0) (in_order answer one.0 rs)
            (λ more. some (more.0, one.1 ∷ more.1)) (in_order-Returns rs one.0 k) (λ more m. m))

module _ {F : Type 0} (registry : Registry) (load : Vec2 → Entities F → Entities F)
    (generate : Vec2 → Chunk F) where
  -- While no block's metadata map is nil, a sequence of reads, writes and removals of blocks and
  -- of metadata values does not panic, and no metadata map is nil after it.
  pub in_order-total :
      (w : World F) (rs : List (Request F))
      → NoNil (view generate w)
      → (w' : World F) × (answers : List (Answer F)) × (in_order (serve registry load generate) w rs
          ≡ some (w', answers))
        × NoNil (view generate w')
  in_order-total w rs h = finished (in_order (serve registry load generate) w rs) refl (
      subst (Returns (λ (r : Cells F × List (Answer F)). NoNil r.0))
        (sym (in_order-refines registry load generate w rs))
        (in_order-Returns rs (view generate w) h))
    where
      finished :
          (o : Option (World F × List (Answer F)))
          → in_order (serve registry load generate) w rs ≡ o
          → Returns
              (λ (r : Cells F × List (Answer F)). NoNil r.0)
              (map_option (shown registry load generate) o)
          → (w' : World F) × (answers : List (Answer F)) × (in_order
                (serve registry load generate)
                w
                rs
              ≡ some (w', answers))
            × NoNil (view generate w')
      finished none e r = absurd r
      finished (some (w', answers)) e r = (w', answers, e, r)
