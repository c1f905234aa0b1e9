-- ===== src/Entity/Manager/Updates.antt =====
-- Where UpdateEntities cannot return.
use mmo_game.Prelude.{
  ℕ, Bool, true, Option, some, List, [], ◌∷◌, ◌++◌, ◌≡◌, ◌≢◌, refl, lookup, lookup-insert, nat_eq,
}
use mmo_game.Prelude.Assoc.{lookup-split}
use mmo_game.Prelude.Outcome.{Outcome, blocked, panicked, done, ◌>>=◌}
use mmo_game.Vec.Float.{FloatOps}
use mmo_game.Entity.{Entity, EntityApi, Draws, npc_type, animal_type}
use mmo_game.Entity.Npc.{new_npc_behavior}
use mmo_game.Entity.Animal.{new_animal_behavior, pig}
use mmo_game.Entity.Behavior.{EntityBehavior, npc, animal, update}
use mmo_game.Entity.Manager.{
  EntityManager, get_entity, get_behavior, register_default_behaviors, update_one, update_each,
  update_entities,
}

-- A call does not return.
abbrev pub Fails : {A : Type 0} → Outcome A → Type 0
Fails o = (a : _) → o ≢ done a

pub >>=-Fails : {A B : Type 0} (o : Outcome A) (f : A → Outcome B) → Fails o → Fails (o >>= f)
>>=-Fails blocked f h b e = cc
>>=-Fails panicked f h b e = cc
>>=-Fails (done a) f h b e = absurd (h a refl)

pub >>=-Fails_after :
    {A B : Type 0} (o : Outcome A) (f : A → Outcome B) → ((a : A) → Fails (f a)) → Fails (o >>= f)
>>=-Fails_after blocked f h b e = cc
>>=-Fails_after panicked f h b e = cc
>>=-Fails_after (done a) f h b e = h a b e

module _ {F W : Type 0} (ops : FloatOps F) (api : EntityApi F W) (draws : ℕ → Draws F) where
  -- The loop does not return when the update of one entity does not, in whatever state of the
  -- world it is made.
  update_each-Fails :
      (behaviors : List (ℕ × EntityBehavior F)) (w : W) (before : List (ℕ × Entity F)) (id : ℕ)
      (e : Entity F) (after : List (ℕ × Entity F)) (dt : F)
      → ((w : W)
          → Fails (update_one ops api draws (lookup e.entity_type behaviors) e.active w e dt))
      → Fails (update_each ops api draws behaviors w (before ++ (id, e) ∷ after) dt)
  unfolding update_each
  update_each-Fails behaviors w [] id e after dt h = >>=-Fails _ _ (h w)
  update_each-Fails behaviors w ((j, x) ∷ before) id e after dt h =
      >>=-Fails_after _ _
        λ r. >>=-Fails _ _ (update_each-Fails behaviors r.0 before id e after dt h)

  found-Fails :
      (behaviors : List (ℕ × EntityBehavior F)) (w : W) (es : List (ℕ × Entity F)) (id : ℕ)
      (e : Entity F) (dt : F)
      → lookup id es ≡ some e
      → ((w : W)
          → Fails (update_one ops api draws (lookup e.entity_type behaviors) e.active w e dt))
      → Fails (update_each ops api draws behaviors w es dt)
  found-Fails behaviors w es id e dt found h =
      let (before, after, split) = lookup-split id e es found in
      rw split (update_each-Fails behaviors w before id e after dt h)

  acted-Fails :
      (o : Option (EntityBehavior F)) (t : Bool) (b : EntityBehavior F) (w : W) (e : Entity F)
      (dt : F)
      → o ≡ some b
      → t ≡ true
      → Fails (update ops api b (draws e.id) w e dt)
      → Fails (update_one ops api draws o t w e dt)
  unfolding update_one
  acted-Fails o t b w e dt behaves active h = rw (behaves, active) h

  -- UpdateEntities does not return when the update of one of its entities never does.
  pub update_entities-Fails :
      (w : W) (em : EntityManager F) (id : ℕ) (e : Entity F) (b : EntityBehavior F) (dt : F)
      → get_entity em id ≡ some e
      → get_behavior em e.entity_type ≡ some b
      → e.active ≡ true
      → ((w : W) → Fails (update ops api b (draws e.id) w e dt))
      → Fails (update_entities ops api draws w em dt)
  unfolding update_entities get_entity get_behavior
  update_entities-Fails w em id e b dt found behaves active h = >>=-Fails _ _ (
      found-Fails em.behaviors w em.entities id e dt found λ w'.
        acted-Fails (lookup e.entity_type em.behaviors) e.active b w' e dt behaves active (h w'))

module _ {F : Type 0} (ops : FloatOps F) where
  -- The behaviours that are registered last stay.
  pub default_npc :
      (em : EntityManager F)
      → get_behavior (register_default_behaviors ops em) npc_type
        ≡ some (npc (new_npc_behavior ops "guard"))
  unfolding register_default_behaviors get_behavior
  default_npc em = simp lookup-insert

  pub default_animal :
      (em : EntityManager F)
      → get_behavior (register_default_behaviors ops em) animal_type
        ≡ some (animal (new_animal_behavior ops pig))
  unfolding register_default_behaviors get_behavior
  default_animal em = simp lookup-insert
