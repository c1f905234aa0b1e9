-- ===== src/Entity/Payload.antt =====
-- What a write to an entity's payload changes for the reads.
use mmo_game.Prelude.{String, some, ◌≡◌, refl, ◌∙◌, lookup-insert, if◌then◌else◌, ◌==◌, string_eq}
use mmo_game.Entity.{Entity, Datum, fetch, put}

module _ {F : Type 0} where
  pub fetch-put :
      (k j : String) (v : Datum F) (e : Entity F)
      → fetch j (put k v e) ≡ (if k == j then some v else fetch j e)
  unfolding fetch put
  fetch-put k j v e = lookup-insert j k v e.payload

  -- What a call leaves alone: where the entity is, and how fast it goes.
  pub record SamePlace (e e' : Entity F) : Type 0 where
    pub same_position : e'.position ≡ e.position
    pub same_precise_pos : e'.precise_pos ≡ e.precise_pos
    pub same_velocity : e'.velocity ≡ e.velocity

  pub SamePlace-refl : (e : Entity F) → SamePlace e e
  SamePlace-refl e = record { same_position = refl; same_precise_pos = refl; same_velocity = refl }

  pub SamePlace-trans : {e e' e'' : Entity F} → SamePlace e e' → SamePlace e' e'' → SamePlace e e''
  SamePlace-trans s t = record {
    same_position = t.same_position ∙ s.same_position;
    same_precise_pos = t.same_precise_pos ∙ s.same_precise_pos;
    same_velocity = t.same_velocity ∙ s.same_velocity;
  }
