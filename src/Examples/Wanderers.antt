-- ===== src/Examples/Wanderers.antt =====
-- A wanderer that is four blocks away from its target.
use mmo_game.Prelude.{ℕ, zero, suc, ◌<◌, pos, Bool, true, false, some, ◌≡◌, refl, arith}
use mmo_game.Vec.{Vec2}
use mmo_game.Fsm.{Entity, Draws, wander, new_entity, later}
use mmo_game.Fsm.Arrival.{elapsed, updates, wander_arrives}
use mmo_game.Examples.Entities.{ops, spot}

abbrev draws : Draws ℕ
draws = record { time = 0; angle = 0; distance = 0 }

abbrev goal : Vec2
goal = record { x = pos 7; y = pos 2 }

abbrev anywhere : Entity ℕ → Vec2 → Bool
anywhere e p = true

abbrev wanderer : Entity ℕ
wanderer = record (new_entity 1 2 spot) { current_state = some (wander goal 5 0 100) }

in_time : (k : ℕ) → k < 4 → ops.at_most 100 (later ops (elapsed ops k 0)) ≡ false
in_time zero lt = refl
in_time (suc zero) lt = refl
in_time (suc (suc zero)) lt = refl
in_time (suc (suc (suc zero))) lt = refl
in_time (suc (suc (suc (suc k)))) lt = absurd (omega arith)

wander_arrives_example : (updates ops anywhere (λ n. draws) 4 wanderer).position ≡ goal
unfolding new_entity
wander_arrives_example =
    wander_arrives ops anywhere (λ n. draws) 4 wanderer goal 5 0 100 refl
      ((omega arith, omega arith), (omega arith, omega arith))
      ((omega arith, omega arith), (omega arith, omega arith)) refl (λ x p. refl) in_time
