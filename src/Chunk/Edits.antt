-- ===== src/Chunk/Edits.antt =====
-- A chunk's life as a sequence of calls of the methods that change it.
use mmo_game.Prelude.{
  ℕ, String, Option, none, some, List, [], ◌∷◌, ◌≡◌, inl, inr, All, Option-cases, subst, arith,
}
use mmo_game.Vec.{Vec2}
use mmo_game.Block.{Value, Behavior, Registry}
use mmo_game.Chunk.{Chunk, set_block_layer, set_block_with_behavior, set_block_metadata_layer}

pub data Edit (F : Type 0) : Type 0 where
  put : ℕ → Vec2 → ℕ → Edit F
  place : Vec2 → Behavior → Edit F
  note : ℕ → Vec2 → String → Value F → Edit F

module _ {F : Type 0} (registry : Registry) where
  unfoldable pub edit : Chunk F → Edit F → Option (Chunk F)
  edit c (put layer p block_id) = set_block_layer registry c layer p block_id
  edit c (place p behavior) = set_block_with_behavior c p behavior
  edit c (note layer p key value) = set_block_metadata_layer c layer p key value

  -- A panic ends the sequence.
  unfoldable pub edits : Option (Chunk F) → List (Edit F) → Option (Chunk F)
  edits none es = none
  edits (some c) [] = some c
  edits (some c) (e ∷ es) = edits (edit c e) es

  -- What every edit keeps, every sequence keeps.
  pub edits_keep {ℓ} :
      (P : Chunk F → Type ℓ) (Q : Edit F → Type 0)
      → ((c : Chunk F) (e : Edit F) (d : Chunk F) → Q e → P c → edit c e ≡ some d → P d)
      → (es : List (Edit F)) (c d : Chunk F) → All Q es
      → P c
      → edits (some c) es ≡ some d
      → P d
  unfolding edits
  edits_keep P Q keep [] c d a p h = let same : c ≡ d = ground arith in subst P same p
  edits_keep P Q keep (e ∷ es) c d a p h = elim (Option-cases (edit c e)) [
    | inl panic ↦ cc (rw (panic, edits) at h)
    | inr (c', ok) ↦ edits_keep P Q keep es c' d a.1 (keep c e c' a.0 p ok) (rw (ok, edits) at h)
  ]
