-- ===== src/Entity/Animal/Life/Keeps.antt =====
-- Every method of an animal keeps the data that Update needs, so that no call panics.
use mmo_game.Prelude.{
  ℤ, pos, ◌-ℤ◌, wrap, leb_ℤ, String, Option, none, some, List, [], ◌∷◌, ◌≡◌, refl, ◌⊎◌, inl, inr,
  Bool-cases, ◌==◌, nat_eq, string_eq,
}
use mmo_game.Prelude.Outcome.{Outcome, done, ◌>>=◌}
use mmo_game.Vec.Float.{FloatOps}
use mmo_game.Entity.{Entity, EntityApi, Draws, int, float, fetch, put, as_string}
use mmo_game.Entity.Animal.{AnimalBehavior, cow}
use mmo_game.Entity.Animal.Cow.Keeps.{Serves, Keeps, if-Keeps, update_cow_state-Keeps}
use mmo_game.Entity.Animal.Whole.{
  IsWhole, put_other, put_hunger, put_state, put_timer, put_target, init-IsWhole,
  update_base_state-IsWhole, process_state-IsWhole,
}
use mmo_game.Entity.Animal.Life.{
  hungrier, act, update_filled, update, on_spawn, flee_from, hurt, on_damage, stopped, on_collision,
}

module _ {F W : Type 0} (ops : FloatOps F) (api : EntityApi F W) (serves : Serves api)
    (ab : AnimalBehavior F) (draws : Draws F) where
  act-Keeps :
      (w : W) (e : Entity F) (state : String) (timer : F)
      → IsWhole e
      → Keeps (act ops api ab draws w e state timer)
  unfolding act put
  act-Keeps w e state timer h =
      if-Keeps ops api serves (ab.kind == cow) _ _
        (update_cow_state-Keeps ops api serves ab draws w e state timer h)
        (if-Keeps ops api serves (ops.at_most timer (ops.lit 0 0)) _ _
          (w, _, refl, update_base_state-IsWhole ops ab draws e state timer h)
          (
            w,
            _,
            refl,
            process_state-IsWhole ops ab draws (put "actionTimer" (float timer) e) state
                (put_timer timer e.payload h),
          ))

  update_filled-Keeps :
      (w : W) (e : Entity F) (dt : F) → IsWhole e → Keeps (update_filled ops api ab draws w e dt)
  unfolding update_filled fetch put
  update_filled-Keeps w e dt h =
      let hunger = hungrier ops api ab draws h.hungry.0 dt in
      let h' = put_hunger hunger e.payload h in
      rw (h.hungry.1, h'.acting.1, h'.timed.1)
        (act-Keeps w (put "hunger" (int hunger) e) h'.acting.0 (ops.minus h'.timed.0 dt) h')

  pub update-Keeps :
      (w : W) (e : Entity F) (dt : F)
      → (fetch "animalType" e ≡ none) ⊎ IsWhole e
      → Keeps (update ops api ab draws w e dt)
  unfolding update
  update-Keeps w e dt h = update_filled-Keeps w _ dt (init-IsWhole ops ab draws e h)

module _ {F : Type 0} (ops : FloatOps F) (ab : AnimalBehavior F) (draws : Draws F) where
  flee-IsWhole :
      (o : Option (Entity F)) (e : Entity F) → IsWhole e → IsWhole (flee_from ops ab draws o e)
  unfolding flee_from put
  flee-IsWhole none e h = h
  flee-IsWhole (some source) e h = put_target _ _ h

  put_health : (n : ℤ) (e : Entity F) → IsWhole e → IsWhole (put "health" (int n) e)
  unfolding put
  put_health n e h = put_other "health" (int n) e.payload refl refl refl refl h

  hurt-IsWhole :
      (o : Option ℤ) (e : Entity F) (damage : ℤ) (source : Option (Entity F))
      → IsWhole e
      → IsWhole (hurt ops ab draws o e damage source).0
  unfolding hurt put
  hurt-IsWhole none e damage source h = h
  hurt-IsWhole (some health) e damage source h =
      elim (Bool-cases (leb_ℤ (wrap (health -ℤ damage)) (pos 0))) [
        | inl t ↦ rw t (put_health (pos 0) e h)
        | inr f ↦
            rw f (flee-IsWhole source _ (put_timer _ _ (put_state "fleeing" _ (put_health _ e h))))
      ]

  pub on_damage-IsWhole :
      (e : Entity F) (damage : ℤ) (source : Option (Entity F))
      → IsWhole e
      → IsWhole (on_damage ops ab draws e damage source).0
  unfolding on_damage
  on_damage-IsWhole e damage source h = hurt-IsWhole _ e damage source h

  stopped-IsWhole :
      (o : Option String) (e : Entity F) → IsWhole e → IsWhole (stopped ops ab draws o e)
  unfolding stopped put
  stopped-IsWhole none e h = h
  stopped-IsWhole (some state) e h = elim (Bool-cases (state == "moving")) [
    | inl t ↦ rw t (put_timer _ _ (put_state "idle" e.payload h))
    | inr f ↦ rw f h
  ]

  pub on_collision-IsWhole : (e : Entity F) → IsWhole e → IsWhole (on_collision ops ab draws e)
  unfolding on_collision
  on_collision-IsWhole e h = stopped-IsWhole (as_string (fetch "state" e)) e h

-- What may happen to an animal.
pub data Deed (F : Type 0) : Type 0 where
  ticks : Draws F → F → Deed F
  is_hurt : Draws F → ℤ → Option (Entity F) → Deed F
  collides : Draws F → Deed F

module _ {F W : Type 0} (ops : FloatOps F) (api : EntityApi F W) (ab : AnimalBehavior F) where
  unfoldable pub deed : Deed F → W → Entity F → Outcome (W × Entity F)
  deed (ticks draws dt) w e = update ops api ab draws w e dt
  deed (is_hurt draws damage source) w e = done (w, (on_damage ops ab draws e damage source).0)
  deed (collides draws) w e = done (w, on_collision ops ab draws e)

  unfoldable pub live : List (Deed F) → W → Entity F → Outcome (W × Entity F)
  unfolding deed
  live [] w e = done (w, e)
  live (d ∷ ds) w e = deed d w e >>= λ (w', e'). live ds w' e'

module _ {F W : Type 0} (ops : FloatOps F) (api : EntityApi F W) (serves : Serves api)
    (ab : AnimalBehavior F) where
  deed-Keeps : (d : Deed F) (w : W) (e : Entity F) → IsWhole e → Keeps (deed ops api ab d w e)
  unfolding deed
  deed-Keeps (ticks draws dt) w e h = update-Keeps ops api serves ab draws w e dt (inr h)
  deed-Keeps (is_hurt draws damage source) w e h =
      (w, _, refl, on_damage-IsWhole ops ab draws e damage source h)
  deed-Keeps (collides draws) w e h = (w, _, refl, on_collision-IsWhole ops ab draws e h)

  live-Keeps :
      (ds : List (Deed F)) (w : W) (e : Entity F) → IsWhole e → Keeps (live ops api ab ds w e)
  unfolding live
  live-Keeps [] w e h = (w, e, refl, h)
  live-Keeps (d ∷ ds) w e h =
      let (w', e', did, h') = deed-Keeps d w e h in rw did (live-Keeps ds w' e' h')

  -- Whatever happens to an animal after OnSpawn has given it its data (ticks, damage and
  -- collisions, in any order and with any random draws), no method panics, as long as the calls of
  -- the world return.
  pub live_returns :
      (draws : Draws F) (e : Entity F) (ds : List (Deed F)) (w : W)
      → fetch "animalType" e ≡ none
      → (w' : W) × (e' : Entity F) × (live ops api ab ds w (on_spawn ops ab draws e)
          ≡ done (w', e'))
  unfolding on_spawn
  live_returns draws e ds w bare =
      let (w', e', lived, h) = live-Keeps ds w _ (init-IsWhole ops ab draws e (inl bare)) in
      (w', e', lived)
