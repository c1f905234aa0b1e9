-- ===== src/Entity/Animal/Cow.antt =====
-- The cow's search for grass: findNearbyGrass and updateCowState of
-- internal/world/entity/animal.go. The coordinates of the searched square are taken not to wrap.
pub mod Keeps
use mmo_game.Prelude.{
  ℕ, ℤ, pos, negsuc, ◌+ℤ◌, ◌-ℤ◌, ◌*ℤ◌, wrap, ltb_ℤ, leb_ℤ, String, Bool, false, not, ◌&&◌, ◌||◌,
  Option, none, some, List, [], ◌∷◌, ◌++◌, map, if◌then◌else◌, ◌==◌, nat_eq, string_eq, int_eq,
}
use mmo_game.Prelude.Outcome.{Outcome, done, asserted, ◌>>=◌}
use mmo_game.Vec.{Vec2}
use mmo_game.Vec.Float.{FloatOps, from_vec2, distance_to, zero_vector}
use mmo_game.Block.{Value, grass_block_id, as_int as value_int}
use mmo_game.Entity.{
  Entity, EntityApi, Draws, int, float, string, point, fetch, put, as_int, as_point,
}
use mmo_game.Entity.Animal.{AnimalBehavior, idle_timer, update_base_state, process_state, head_for}

abbrev sand_block_id : ℕ
sand_block_id = 4

-- -8 to 8.
abbrev pub offsets : List ℤ
offsets =
    negsuc 7
    ∷ negsuc 6
    ∷ negsuc 5
    ∷ negsuc 4
    ∷ negsuc 3
    ∷ negsuc 2
    ∷ negsuc 1
    ∷ negsuc 0
    ∷ pos 0
    ∷ pos 1
    ∷ pos 2
    ∷ pos 3
    ∷ pos 4
    ∷ pos 5
    ∷ pos 6
    ∷ pos 7
    ∷ pos 8
    ∷ []

-- The offsets of the two loops, in their order: y outside and x inside.
unfoldable pub rows : List ℤ → List Vec2
rows [] = []
rows (y ∷ ys) = map (λ x. record { x = x; y = y }) offsets ++ rows ys

module _ {F W : Type 0} (ops : FloatOps F) (api : EntityApi F W) where
  -- distanceSquared > searchRadius * searchRadius, on floats.
  too_far : Vec2 → Bool
  too_far d =
      ops.less (ops.times (ops.lit 8 0) (ops.lit 8 0))
        (ops.of_int (wrap (wrap (d.x *ℤ d.x) +ℤ wrap (d.y *ℤ d.y))))

  abbrev pub grown : Option ℤ → Bool
  grown none = false
  grown (some growth) = leb_ℤ (pos 3) growth

  -- The loop over the square; (0, 0) means that nothing was found.
  unfoldable pub look_for_grass : W → Vec2 → List Vec2 → Outcome (W × Vec2)
  unfolding too_far
  look_for_grass w center [] = done (w, record { x = pos 0; y = pos 0 })
  look_for_grass w center (d ∷ ds) =
      let p : Vec2 = record { x = wrap (center.x +ℤ d.x); y = wrap (center.y +ℤ d.y) } in
      let look : Outcome (W × Vec2) = api.get_block w p >>= λ (w', id).
      (let next : Outcome (W × Vec2) = look_for_grass w' center ds in
        let read : Outcome (W × Vec2) = api.get_block_metadata w' p "growth" >>= λ (w'', v).
        (let later : Outcome (W × Vec2) = look_for_grass w'' center ds in
          if grown (value_int v) then done (w'', p) else later) in
        if id == grass_block_id then read else next) in
      let skip : Outcome (W × Vec2) = look_for_grass w center ds in if too_far d then skip else look

  unfoldable pub find_nearby_grass : W → Entity F → Outcome (W × Vec2)
  unfolding look_for_grass rows
  find_nearby_grass w e = look_for_grass w e.position (rows offsets)

module _ {F W : Type 0} (ops : FloatOps F) (api : EntityApi F W) (ab : AnimalBehavior F)
    (draws : Draws F) where
  -- Eating lowers the growth, and the block becomes sand when nothing is left.
  graze : W → Vec2 → Entity F → Option ℤ → Outcome (W × Entity F)
  graze w target e none = done (w, e)
  graze w target e (some growth) =
      if ltb_ℤ (pos 0) growth
      then (api.set_block_metadata w target "growth" (Value.int (wrap (growth -ℤ pos 1))) >>= λ w'.
          (if leb_ℤ growth (pos 1)
            then (api.set_block w' target sand_block_id >>= λ w''. done (w'', e))
            else done (w', e)))
      else done (w, e)

  abbrev start_eating : Entity F → Entity F
  start_eating e =
      record (put "actionTimer" (float ab.eat_duration) (put "state" (string "eating") e)) {
        velocity = zero_vector ops;
      }

  -- The grass may be gone when the cow is there.
  reach_grass : W → Vec2 → Entity F → Outcome (W × Entity F)
  unfolding graze put
  reach_grass w target e = api.get_block w target >>= λ (w', id).
      (if id == grass_block_id
        then (api.get_block_metadata w' target "growth" >>= λ (w'', v).
            graze w'' target (start_eating e) (value_int v))
        else done (
          w',
          put "actionTimer" (float (idle_timer ops ab draws)) (put "state" (string "idle") e),
        ))

  go_to_grass : W → Entity F → Option Vec2 → Outcome (W × Entity F)
  unfolding reach_grass distance_to from_vec2 head_for
  go_to_grass w e none = done (w, e)
  go_to_grass w e (some target) =
      if ops.less (distance_to ops e.precise_pos (from_vec2 ops target)) (ops.lit 8 1)
      then reach_grass w target e
      else done (w, head_for ops ab draws e target)

  go_on_as_cow : W → Entity F → String → Outcome (W × Entity F)
  unfolding go_to_grass fetch process_state
  go_on_as_cow w e state =
      if state == "eating"
      then done (w, record e { velocity = zero_vector ops })
      else (if state == "moving_to_grass"
          then go_to_grass w e (as_point (fetch "targetPosition" e))
          else done (w, process_state ops ab draws e state))

  -- A cow that has eaten is less hungry by 30 percent of 100, not below 0.
  abbrev fed : ℤ → ℤ
  fed hunger = let less = wrap (hunger -ℤ pos 3000) in if ltb_ℤ less (pos 0) then pos 0 else less

  -- The time of the action has run out.
  end_as_cow : Entity F → String → F → ℤ → Entity F
  unfolding put update_base_state
  end_as_cow e state timer hunger =
      if state == "eating"
      then put "hunger" (int (fed hunger)) (put "state" (string "idle") e)
      else (if state == "moving_to_grass"
          then put "state" (string "idle") e
          else (update_base_state ops ab draws e state timer).0)

  timed : W → Entity F → String → F → ℤ → Outcome (W × Entity F)
  unfolding end_as_cow go_on_as_cow put
  timed w e state timer hunger =
      if ops.at_most timer (ops.lit 0 0)
      then done (w, end_as_cow e state timer hunger)
      else go_on_as_cow w (put "actionTimer" (float timer) e) state

  seek : Vec2 → Entity F → Entity F
  unfolding put
  seek grass e =
      put "actionTimer" (float (ops.lit 10 0))
        (put "targetPosition" (point grass) (put "state" (string "moving_to_grass") e))

  -- A hungry cow looks for grass and goes there, if there is any.
  search : W → Entity F → String → F → ℤ → Outcome (W × Entity F)
  unfolding timed seek
  search w e state timer hunger = find_nearby_grass ops api w e >>= λ (w', grass).
      (if not (grass.x == pos 0) || not (grass.y == pos 0)
        then done (w', seek grass e)
        else timed w' e state timer hunger)

  abbrev pub wants_grass : String → ℤ → Bool
  wants_grass state hunger =
      ltb_ℤ (wrap (ab.max_hunger *ℤ pos 40)) hunger && not (state == "eating")

  unfoldable pub update_cow_state : W → Entity F → String → F → Outcome (W × Entity F)
  unfolding timed search fetch
  update_cow_state w e state timer = asserted (as_int (fetch "hunger" e)) >>= λ hunger.
      (if wants_grass state hunger
        then search w e state timer hunger
        else timed w e state timer hunger)
