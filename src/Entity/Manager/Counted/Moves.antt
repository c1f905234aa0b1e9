-- ===== src/Entity/Manager/Counted/Moves.antt =====
-- The update loop and the movement keep the keys.
use mmo_game.Prelude.{
  ℕ, Bool, Option, none, some, List, [], ◌∷◌, ◌≡◌, refl, subst, lookup, All, All-insert, All-lookup,
  nat_eq, arith, true, false, if◌then◌else◌, not, ◌||◌,
}
use mmo_game.Vec.Float.{FloatOps, Vec2Float}
use mmo_game.Block.{Registry}
use mmo_game.Entity.Manager.Movement.{
  process_movement, found as found_entity, moved, walk, write_found, settle, check_collision,
}
use mmo_game.Entity.{Entity, EntityApi, Draws, MovementDirection}
use mmo_game.Entity.Behavior.{EntityBehavior}
use mmo_game.Entity.Manager.{
  EntityManager, get_entity, get_behavior, write_entity, update_one, update_each, update_entities,
}
use mmo_game.Prelude.Outcome.{Outcome, blocked, panicked, done, done-injective, >>=-eq-done, ◌>>=◌}
use mmo_game.Entity.Manager.Counted.{AtMost, IsCounted}

-- Whatever a call returns has a property.
abbrev Returns : {A : Type 0} → (A → Type 0) → Outcome A → Type 0
Returns P o = (a : _) → o ≡ done a → P a

>>=-Returns :
    {A B : Type 0} (P : B → Type 0) (o : Outcome A) (f : A → Outcome B)
    → ((a : A) → Returns P (f a))
    → Returns P (o >>= f)
>>=-Returns P blocked f h b e = cc
>>=-Returns P panicked f h b e = cc
>>=-Returns P (done a) f h b e = h a b e

if-Returns :
    {A : Type 0} (P : A → Type 0) (b : Bool) (o o' : Outcome A)
    → Returns P o
    → Returns P o'
    → Returns P (if b then o else o')
if-Returns P true o o' h h' = h
if-Returns P false o o' h h' = h'

done-Returns : {A : Type 0} (P : A → Type 0) (a : A) → P a → Returns P (done a)
done-Returns P a h b e = subst P (done-injective e) h

module _ {F W : Type 0} (ops : FloatOps F) (api : EntityApi F W) (registry : Registry) where
  -- The update loop keeps every entry under its key.
  update_each-AtMost :
      (n : ℕ) (draws : ℕ → Draws F) (behaviors : List (ℕ × EntityBehavior F))
      (es : List (ℕ × Entity F)) (w w' : W) (es' : List (ℕ × Entity F)) (dt : F)
      → All (AtMost n) es
      → update_each ops api draws behaviors w es dt ≡ done (w', es')
      → All (AtMost n) es'
  unfolding update_each
  update_each-AtMost n draws behaviors [] w w' es' dt h e =
      let same : (w, []) ≡ (w', es') = done-injective e in
      subst (λ (l : List (ℕ × Entity F)). All (AtMost n) l) (λ i. (same i).1) tt
  update_each-AtMost n draws behaviors ((id, x) ∷ es) w w' es' dt h e =
      let (r, one, rest) =
        >>=-eq-done (update_one ops api draws (lookup x.entity_type behaviors) x.active w x dt) _
          e in
      let (q, others, same) = >>=-eq-done (update_each ops api draws behaviors r.0 es dt) _ rest in
      let kept : (q.0, (id, r.1) ∷ q.1) ≡ (w', es') = done-injective same in
      subst (λ (l : List (ℕ × Entity F)). All (AtMost n) l) (λ i. (kept i).1)
        (h.0, update_each-AtMost n draws behaviors es r.0 q.0 q.1 dt h.1 others)

  pub updated-IsCounted :
      (bound : ℕ) (draws : ℕ → Draws F) (em em' : EntityManager F) (w w' : W) (dt : F)
      → IsCounted bound em
      → update_entities ops api draws w em dt ≡ done (w', em')
      → IsCounted bound em'
  unfolding update_entities
  updated-IsCounted bound draws em em' w w' dt h e =
      let (r, each, same) = >>=-eq-done _ _ e in
      subst (λ (r : W × EntityManager F). IsCounted bound r.1) (done-injective same)
        (record {
          keys =
              update_each-AtMost em.next_entity_id draws em.behaviors em.entities w r.0 r.1 dt
                h.keys each;
          bounded = h.bounded;
        })

  write_found-IsCounted :
      (bound : ℕ) (em : EntityManager F) (x : Entity F) (id : ℕ) (o : Option (Entity F))
      → x.id ≡ id
      → lookup id em.entities ≡ o
      → IsCounted bound em
      → IsCounted bound (write_found ops api registry em x o)
  unfolding write_found write_entity
  write_found-IsCounted bound em x id none own there h = h
  write_found-IsCounted bound em x id (some y) own there h = record {
    keys =
        All-insert (AtMost em.next_entity_id) x.id x em.entities
          (omega (arith, own, All-lookup (AtMost em.next_entity_id) id y em.entities h.keys there))
          h.keys;
    bounded = h.bounded;
  }

  walk-IsCounted :
      (bound : ℕ) (draws : Draws F) (em : EntityManager F) (w : W) (x : Entity F)
      (p v : Vec2Float F)
      → IsCounted bound em
      → Returns
          (λ (r : W × EntityManager F × Bool). IsCounted bound r.1)
          (walk ops api registry draws em w x p v)
  unfolding walk settle
  walk-IsCounted bound draws em w x p v h =
      let Kept : W × EntityManager F × Bool → Type 0 = λ r. IsCounted bound r.1 in
      >>=-Returns Kept
        (check_collision ops api registry draws em w x (record { x = p.x; y = x.precise_pos.y })) _
        λ (w', e', x_hit).
          >>=-Returns Kept
            (check_collision ops api registry draws em w' e'
              (record { x = x.precise_pos.x; y = p.y }))
            _
            λ (w'', e'', y_hit).
              done-Returns Kept
                (
                  w'',
                  write_found ops api registry em (settle ops e'' p v x_hit y_hit)
                      (lookup e''.id em.entities),
                  not x_hit || not y_hit,
                )
                (write_found-IsCounted bound em (settle ops e'' p v x_hit y_hit) e''.id
                  (lookup e''.id em.entities) refl refl h)

  moved-IsCounted :
      (bound : ℕ) (draws : Draws F) (em em' : EntityManager F) (w w' : W)
      (direction : MovementDirection) (dt : F) (x : Entity F) (o : Option (EntityBehavior F))
      (walked : Bool)
      → IsCounted bound em
      → moved ops api registry draws em w direction dt x o ≡ done (w', em', walked)
      → IsCounted bound em'
  unfolding moved
  moved-IsCounted bound draws em em' w w' direction dt x none walked h e =
      subst (λ (r : W × EntityManager F × Bool). IsCounted bound r.1) (done-injective e) h
  moved-IsCounted bound draws em em' w w' direction dt x (some b) walked h e =
      walk-IsCounted bound draws em w _ _ _ h (w', em', walked) e

  found-IsCounted :
      (bound : ℕ) (draws : Draws F) (em em' : EntityManager F) (w w' : W)
      (direction : MovementDirection) (dt : F) (o : Option (Entity F)) (walked : Bool)
      → IsCounted bound em
      → found_entity ops api registry draws em w direction dt o ≡ done (w', em', walked)
      → IsCounted bound em'
  unfolding found_entity
  found-IsCounted bound draws em em' w w' direction dt none walked h e =
      subst (λ (r : W × EntityManager F × Bool). IsCounted bound r.1) (done-injective e) h
  found-IsCounted bound draws em em' w w' direction dt (some x) walked h e =
      let Kept : W × EntityManager F × Bool → Type 0 = λ r. IsCounted bound r.1 in
      if-Returns Kept x.active
        (moved ops api registry draws em w direction dt x (get_behavior em x.entity_type))
        (done (w, em, false))
        (λ (w'', em'', t) same.
          moved-IsCounted bound draws em em'' w w'' direction dt x (get_behavior em x.entity_type) t
            h same)
        (done-Returns Kept (w, em, false) h) (w', em', walked) e

  pub walked-IsCounted :
      (bound : ℕ) (draws : Draws F) (em em' : EntityManager F) (w w' : W) (id : ℕ)
      (direction : MovementDirection) (dt : F) (walked : Bool)
      → IsCounted bound em
      → process_movement ops api registry draws em w id direction dt ≡ done (w', em', walked)
      → IsCounted bound em'
  unfolding process_movement
  walked-IsCounted bound draws em em' w w' id direction dt walked h e =
      found-IsCounted bound draws em em' w w' direction dt (get_entity em id) walked h e
