-- ===== src/Entity/Animal/Stall.antt =====
-- What becomes of an animal, but for a cow, once the time of its action has run out.
use mmo_game.Prelude.{
  ℕ, zero, suc, ℤ, String, Bool, true, false, not, Option, none, some, ◌≡◌, refl, ◌∙◌,
  if◌then◌else◌, ◌==◌, nat_eq, string_eq,
}
use mmo_game.Prelude.Outcome.{Outcome, done, ◌>>=◌}
use mmo_game.Vec.{Vec2}
use mmo_game.Vec.Float.{FloatOps}
use mmo_game.Entity.{
  Entity, EntityApi, Draws, Datum, int, float, string, point, fetch, put, as_point,
}
use mmo_game.Entity.Payload.{fetch-put, SamePlace, SamePlace-refl, SamePlace-trans}
use mmo_game.Entity.Animal.{
  AnimalBehavior, cow, init_animal_data, update_base_state, filled_if, homed, set_out,
}
use mmo_game.Entity.Animal.Life.{hungrier, act, update_filled, update}

-- The two states between which an animal goes to and fro.
abbrev pub state_name : Bool → String
state_name true = "idle"
state_name false = "moving"

-- The state after some ticks.
abbrev pub after : ℕ → Bool → Bool
after zero idle = idle
after (suc n) idle = after n (not idle)

module _ {F W : Type 0} (ops : FloatOps F) (api : EntityApi F W) (ab : AnimalBehavior F)
    (dt : F) where
  -- One update after another, each with its own draws.
  unfoldable pub run : (ℕ → Draws F) → ℕ → W → Entity F → Outcome (W × Entity F)
  unfolding update
  run draws zero w e = done (w, e)
  run draws (suc n) w e = update ops api ab (draws n) w e dt >>= λ (w', e'). run draws n w' e'

  -- The payload of an animal whose time is up at the next tick.
  pub record IsOverdue (idle : Bool) (hunger : ℤ) (timer : F) (kind : Datum F) (e : Entity F)
      : Type 0 where
    pub is_animal : fetch "animalType" e ≡ some kind
    pub has_hunger : fetch "hunger" e ≡ some (int hunger)
    pub in_state : fetch "state" e ≡ some (string (state_name idle))
    pub has_timer : fetch "actionTimer" e ≡ some (float timer)
    pub time_is_up : ops.at_most (ops.minus timer dt) (ops.lit 0 0) ≡ true

  fetch-homed :
      (draws : Draws F) (j : String) (o : Option Vec2) (e : Entity F)
      → ("homePosition" == j) ≡ false
      → fetch j (homed ops ab draws o e).0 ≡ fetch j e
  unfolding homed
  fetch-homed draws j (some home) e h = refl
  fetch-homed draws j none e h = rw (fetch-put "homePosition" j (point e.position) e, h)

  homed_place :
      (draws : Draws F) (o : Option Vec2) (e : Entity F) → SamePlace e (homed ops ab draws o e).0
  unfolding homed put
  homed_place draws (some home) e = SamePlace-refl e
  homed_place draws none e = record {
    same_position = refl;
    same_precise_pos = refl;
    same_velocity = refl;
  }

  fetch-set_out :
      (draws : Draws F) (j : String) (o : Option Vec2) (e : Entity F)
      → ("homePosition" == j) ≡ false
      → ("targetPosition" == j) ≡ false
      → fetch j (set_out ops ab draws (homed ops ab draws o e)) ≡ fetch j e
  unfolding set_out
  fetch-set_out draws j o e h k =
      rw (fetch-put "targetPosition" j _ (homed ops ab draws o e).0, k) (fetch-homed draws j o e h)

  toggled : Draws F → Bool → F → Entity F → Entity F
  unfolding update_base_state
  toggled draws idle timer e = (update_base_state ops ab draws e (state_name idle) timer).0

  fetch-toggled :
      (draws : Draws F) (idle : Bool) (timer : F) (j : String) (e : Entity F)
      → ("homePosition" == j) ≡ false
      → ("targetPosition" == j) ≡ false
      → fetch j (toggled draws idle timer e)
        ≡ (if "state" == j then some (string (state_name (not idle))) else fetch j e)
  unfolding toggled
  fetch-toggled draws true timer j e h k =
      fetch-set_out draws j _ (put "state" (string "moving") e) h k
      ∙ fetch-put "state" j (string "moving") e
  fetch-toggled draws false timer j e h k = fetch-put "state" j (string "idle") e

  toggled_place :
      (draws : Draws F) (idle : Bool) (timer : F) (e : Entity F)
      → SamePlace e (toggled draws idle timer e)
  unfolding toggled set_out put
  toggled_place draws true timer e =
      let s =
        homed_place draws (as_point (fetch "homePosition" (put "state" (string "moving") e)))
          (put "state" (string "moving") e) in
      record {
        same_position = s.same_position;
        same_precise_pos = s.same_precise_pos;
        same_velocity = s.same_velocity;
      }
  toggled_place draws false timer e = record {
    same_position = refl;
    same_precise_pos = refl;
    same_velocity = refl;
  }

  -- The animal after a tick.
  ticked : Draws F → Bool → ℤ → F → Entity F → Entity F
  ticked draws idle hunger timer e =
      toggled draws idle (ops.minus timer dt)
        (put "hunger" (int (hungrier ops api ab draws hunger dt)) e)

  ticked_place :
      (draws : Draws F) (idle : Bool) (hunger : ℤ) (timer : F) (e : Entity F)
      → SamePlace e (ticked draws idle hunger timer e)
  unfolding ticked put
  ticked_place draws idle hunger timer e =
      let s =
        toggled_place draws idle (ops.minus timer dt)
          (put "hunger" (int (hungrier ops api ab draws hunger dt)) e) in
      record {
        same_position = s.same_position;
        same_precise_pos = s.same_precise_pos;
        same_velocity = s.same_velocity;
      }

  update_step :
      (draws : Draws F) (idle : Bool) (hunger : ℤ) (timer : F) (kind : Datum F) (w : W)
      (e : Entity F)
      → (ab.kind == cow) ≡ false
      → IsOverdue idle hunger timer kind e
      → update ops api ab draws w e dt ≡ done (w, ticked draws idle hunger timer e)
  unfolding update init_animal_data filled_if update_filled act ticked toggled
  update_step draws idle hunger timer kind w e c h =
      let e' = put "hunger" (int (hungrier ops api ab draws hunger dt)) e in
      let state : fetch "state" e' ≡ some (string (state_name idle)) =
        fetch-put "hunger" "state" (int (hungrier ops api ab draws hunger dt)) e ∙ h.in_state in
      let timed : fetch "actionTimer" e' ≡ some (float timer) =
        fetch-put "hunger" "actionTimer" (int (hungrier ops api ab draws hunger dt)) e
        ∙ h.has_timer in
      rw (h.is_animal, h.has_hunger, state, timed, c, h.time_is_up) refl

  ticked-IsOverdue :
      (draws : Draws F) (idle : Bool) (hunger : ℤ) (timer : F) (kind : Datum F) (e : Entity F)
      → IsOverdue idle hunger timer kind e
      → IsOverdue
          (not idle)
          (hungrier ops api ab draws hunger dt)
          timer
          kind
          (ticked draws idle hunger timer e)
  unfolding ticked
  ticked-IsOverdue draws idle hunger timer kind e h =
      let more = hungrier ops api ab draws hunger dt in
      let read = λ (j : String). λ (p : ("homePosition" == j) ≡ false).
        λ (q : ("targetPosition" == j) ≡ false).
          fetch-toggled draws idle (ops.minus timer dt) j (put "hunger" (int more) e) p q in
      record {
        is_animal =
            read "animalType" refl refl
            ∙ fetch-put "hunger" "animalType" (int more) e
            ∙ h.is_animal;
        has_hunger = read "hunger" refl refl ∙ fetch-put "hunger" "hunger" (int more) e;
        in_state = read "state" refl refl;
        has_timer =
            read "actionTimer" refl refl
            ∙ fetch-put "hunger" "actionTimer" (int more) e
            ∙ h.has_timer;
        time_is_up = h.time_is_up;
      }

  -- An animal that is no cow, and whose action's time is up at the next tick, never moves again:
  -- after any number of ticks of the same length, whatever the random draws, it is where it was,
  -- with the velocity that it had, and its state has gone to and fro between idle and moving, once
  -- a tick.
  pub overdue-stalls :
      (draws : ℕ → Draws F) (n : ℕ) (idle : Bool) (hunger : ℤ) (timer : F) (kind : Datum F) (w : W)
      (e : Entity F)
      → (ab.kind == cow) ≡ false
      → IsOverdue idle hunger timer kind e
      → (e' : Entity F) × (run draws n w e ≡ done (w, e'))
        × (fetch "state" e' ≡ some (string (state_name (after n idle))))
        × SamePlace e e'
  unfolding run
  overdue-stalls draws zero idle hunger timer kind w e c h = (e, refl, h.in_state, SamePlace-refl e)
  overdue-stalls draws (suc n) idle hunger timer kind w e c h =
      let e₁ = ticked (draws n) idle hunger timer e in
      let (e', runs, state, place) =
        overdue-stalls draws n (not idle) (hungrier ops api ab (draws n) hunger dt) timer kind w e₁
          c (ticked-IsOverdue (draws n) idle hunger timer kind e h) in
      (
        e',
        rw (update_step (draws n) idle hunger timer kind w e c h) runs,
        state,
        SamePlace-trans (ticked_place (draws n) idle hunger timer e) place,
      )
