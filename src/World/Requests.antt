-- ===== src/World/Requests.antt =====
-- Sequences of calls of the world's block methods, against the plain map from the layers of blocks
-- to cells.
use mathlib.Core.Option.{map as map_option}
use mmo_game.Prelude.{
  ℕ, String, ◌>>=◌, ◌⊎◌, Option, none, some, List, [], ◌∷◌, ◌≡◌, refl, ap, sym, ◌∙◌, inl, inr,
  lookup, string_eq,
}
use mmo_game.Vec.{Vec2}
use mmo_game.Block.{Value, Registry, air_block_id}
use mmo_game.Chunk.{Chunk, at, layer_active, or_empty}
use mmo_game.Chunk.Cells.{Cells}
use mmo_game.Events.{Block, Entities}
use mmo_game.World.{
  World, value_in, removed, get_block_layer, get_block, set_block_layer, set_block, remove_block,
  get_block_metadata_value, set_block_metadata_value,
}
use mmo_game.World.View.{view}
use mmo_game.World.Refine.{
  cell_block, put, note, get_block_layer-view, set_block_layer-view, set_block_metadata_value-view,
}

pub data Request (F : Type 0) : Type 0 where
  read : Vec2 → ℕ → Request F
  write : Vec2 → ℕ → Block F → Request F
  remove : Vec2 → Request F
  read_value : Vec2 → String → Request F
  write_value : Vec2 → String → Value F → Request F

pub data Answer (F : Type 0) : Type 0 where
  block : Block F → Answer F
  value : Option (Value F) → Answer F
  done : Answer F

abbrev pub air_block : {F : Type 0} → Block F
air_block = record { id = air_block_id; payload = [] }

abbrev pub with_answer {ℓ} : {S : Type ℓ} {A : Type 0} → A → S → S × A
with_answer a s = (s, a)

-- Any machine that answers requests answers a list of them in order; a panic ends it.
abbrev pub in_order {ℓ} :
    {S : Type ℓ} {R A : Type 0} → (S → R → Option (S × A)) → S → List R → Option (S × List A)
in_order step s [] = some (s, [])
in_order step s (r ∷ rs) = do
  one ← step s r
  more ← in_order step one.0 rs
  some (more.0, one.1 ∷ more.1)

module _ {F : Type 0} (registry : Registry) (load : Vec2 → Entities F → Entities F)
    (generate : Vec2 → Chunk F) where
  abbrev reading : World F × Option (Block F) → Option (World F × Answer F)
  reading (w, none) = none
  reading (w, some b) = some (w, block b)

  abbrev removing : Option (World F × Block F) → Option (World F × Answer F)
  removing o = map_option (λ (r : World F × Block F). (r.0, block r.1)) o

  -- The code's method for each request.
  unfoldable pub serve : World F → Request F → Option (World F × Answer F)
  serve w (read p layer) = reading (get_block_layer load generate w p layer)
  serve w (write p layer b) =
      map_option (with_answer done) (set_block_layer registry load generate w p layer b)
  serve w (remove p) = removing (remove_block registry load generate w p)
  serve w (read_value p key) =
      let found = get_block_metadata_value load generate w p key in some (found.0, value found.1)
  serve w (write_value p key v) =
      map_option (with_answer done) (set_block_metadata_value load generate w p key v)

-- The plain map's answer.
unfoldable pub answer : {F : Type 0} → Cells F → Request F → Option (Cells F × Answer F)
answer cells (read p layer) = some (cells, block (cell_block (cells (at layer p))))
answer cells (write p layer b) = map_option (with_answer done) (put cells p layer b)
answer cells (remove p) =
    map_option (with_answer (block (cell_block (cells (at layer_active p)))))
      (put cells p layer_active air_block)
answer cells (read_value p key) =
    some (cells, value (lookup key (or_empty (cells (at layer_active p)).notes)))
answer cells (write_value p key v) = map_option (with_answer done) (note cells p key v)

module _ {F : Type 0} (registry : Registry) (load : Vec2 → Entities F → Entities F)
    (generate : Vec2 → Chunk F) where
  abbrev pub shown : {A : Type 0} → World F × A → Cells F × A
  shown (w, a) = (view generate w, a)

  shown-answered :
      {A : Type 0} (a : A) (o : Option (World F))
      → map_option shown (map_option (with_answer a) o)
        ≡ map_option (with_answer a) (map_option (view generate) o)
  shown-answered a none = refl
  shown-answered a (some w) = refl

  shown-removed :
      (o : Option (World F)) (b : Block F)
      → map_option shown (removing registry load generate (removed o (some b)))
        ≡ map_option (with_answer (block b)) (map_option (view generate) o)
  shown-removed none b = refl
  shown-removed (some w) b = refl

  pub serve-answer :
      (w : World F) (r : Request F)
      → map_option shown (serve registry load generate w r) ≡ answer (view generate w) r
  unfolding serve answer get_block_metadata_value remove_block get_block set_block
  serve-answer w (read p layer) =
      let (w', e, same) = get_block_layer-view load generate w p layer in
      rw e (λ i. some (same i, block (cell_block (view generate w (at layer p)))))
  serve-answer w (write p layer b) =
      shown-answered done (set_block_layer registry load generate w p layer b)
      ∙ ap (map_option (with_answer done)) (set_block_layer-view load generate registry w p layer b)
  serve-answer w (remove p) =
      let (w', e, same) = get_block_layer-view load generate w p layer_active in
      let old = cell_block (view generate w (at layer_active p)) in
      ap
        (λ (found : World F × Option (Block F)). map_option shown (
          removing registry load generate (
            removed (set_block_layer registry load generate found.0 p layer_active air_block)
              found.1)))
        e
      ∙ (shown-removed (set_block_layer registry load generate w' p layer_active air_block) old
          ∙ ap (map_option (with_answer (block old))) (
              set_block_layer-view load generate registry w' p layer_active air_block
              ∙ ap (λ (cells : Cells F). put cells p layer_active air_block) same))
  serve-answer w (read_value p key) =
      let (w', e, same) = get_block_layer-view load generate w p layer_active in
      ap
        (λ (found : World F × Option (Block F)).
          some (view generate found.0, value (value_in key found.1)))
        e
      ∙ (λ i.
          some (same i, value (lookup key (or_empty (view generate w (at layer_active p)).notes))))
  serve-answer w (write_value p key v) =
      shown-answered done (set_block_metadata_value load generate w p key v)
      ∙ ap (map_option (with_answer done)) (set_block_metadata_value-view load generate w p key v)

  shown-more :
      (a : Answer F) (o : Option (World F × List (Answer F)))
      → map_option shown (o >>= (λ more. some (more.0, a ∷ more.1)))
        ≡ (map_option shown o >>= (λ more. some (more.0, a ∷ more.1)))
  shown-more a none = refl
  shown-more a (some more) = refl

  -- A sequence of calls on the world ends in a panic just when it does on the plain map; otherwise
  -- every call returns what the plain map returns, and the world shows the plain map's cells.
  pub in_order-refines :
      (w : World F) (rs : List (Request F))
      → map_option shown (in_order (serve registry load generate) w rs)
        ≡ in_order answer (view generate w) rs
  in_order-refines w [] = refl
  in_order-refines w (r ∷ rs) =
      elim (same_step (serve registry load generate w r) (answer (view generate w) r)
        (serve-answer w r)) [
          | inl (panic, nil) ↦ rw (panic, nil) refl
          | inr (w', a, ok, made) ↦
              rw (ok, made)
                (shown-more a (in_order (serve registry load generate) w' rs)
                  ∙ ap
                      (λ (o : Option (Cells F × List (Answer F))).
                        o >>= (λ more. some (more.0, a ∷ more.1)))
                      (in_order-refines w' rs))
        ]
    where
      same_step :
          (o : Option (World F × Answer F)) (q : Option (Cells F × Answer F))
          → map_option shown o ≡ q
          → ((o ≡ none) × (q ≡ none))
            ⊎ ((w' : World F) × (a : Answer F) × (o ≡ some (w', a))
                × (q ≡ some (view generate w', a)))
      same_step none q h = inl (refl, sym h)
      same_step (some (w', a)) q h = inr (w', a, refl, sym h)
