-- ===== src/Entity/Animal/Cow/Keeps.antt =====
-- A cow keeps an animal's data, as long as its calls of the world return.
use mmo_game.Prelude.{
  ℕ, ℤ, pos, ◌+ℤ◌, ◌-ℤ◌, wrap, ltb_ℤ, leb_ℤ, String, Bool, true, false, not, ◌||◌, Option, none,
  some, List, [], ◌∷◌, ◌≡◌, refl, if◌then◌else◌, ◌==◌, nat_eq, string_eq, int_eq,
}
use mmo_game.Prelude.Outcome.{Outcome, done}
use mmo_game.Vec.{Vec2}
use mmo_game.Vec.Float.{FloatOps}
use mmo_game.Block.{Value, grass_block_id, as_int as value_int}
use mmo_game.Entity.{Entity, EntityApi, Draws, float, fetch, put}
use mmo_game.Entity.Animal.{AnimalBehavior, head_for}
use mmo_game.Entity.Animal.Cow.{
  look_for_grass, find_nearby_grass, graze, start_eating, reach_grass, go_to_grass, go_on_as_cow,
  end_as_cow, timed, seek, update_cow_state, too_far, grown, rows, offsets, sand_block_id, search,
  wants_grass,
}
use mmo_game.Entity.Animal.Whole.{
  IsWhole, put_hunger, put_state, put_timer, put_target, if-HasData, update_base_state-IsWhole,
  process_state-IsWhole,
}

-- Every call of the world that an animal makes returns.
pub record Serves {F W : Type 0} (api : EntityApi F W) : Type 0 where
  pub block_read : (w : W) (p : Vec2) → (r : W × ℕ) × (api.get_block w p ≡ done r)
  pub block_set : (w : W) (p : Vec2) (id : ℕ) → (w' : W) × (api.set_block w p id ≡ done w')
  pub metadata_read :
      (w : W) (p : Vec2) (k : String)
      → (r : W × Option (Value F)) × (api.get_block_metadata w p k ≡ done r)
  pub metadata_set :
      (w : W) (p : Vec2) (k : String) (v : Value F)
      → (w' : W) × (api.set_block_metadata w p k v ≡ done w')

-- A call that returns an animal with its data.
abbrev pub Keeps : {F W : Type 0} → Outcome (W × Entity F) → Type 0
Keeps {F} {W} o = (w : W) × (e : Entity F) × (o ≡ done (w, e)) × IsWhole e

module _ {F W : Type 0} (ops : FloatOps F) (api : EntityApi F W) (serves : Serves api) where
  pub if-Keeps :
      (b : Bool) (o o' : Outcome (W × Entity F)) → Keeps o → Keeps o' → Keeps (if b then o else o')
  if-Keeps true o o' h h' = h
  if-Keeps false o o' h h' = h'

  if_done :
      (A : Type 0) (b : Bool) (o o' : Outcome A)
      → ((a : A) × (o ≡ done a))
      → ((a : A) × (o' ≡ done a))
      → (a : A) × ((if b then o else o') ≡ done a)
  if_done A true o o' h h' = h
  if_done A false o o' h h' = h'

  look-done :
      (w : W) (center : Vec2) (ds : List Vec2)
      → (r : W × Vec2) × (look_for_grass ops api w center ds ≡ done r)
  unfolding look_for_grass
  look-done w center [] = ((w, record { x = pos 0; y = pos 0 }), refl)
  look-done w center (d ∷ ds) = if_done (W × Vec2) (too_far ops api d) _ _ (look-done w center ds) (
      let p : Vec2 = record { x = wrap (center.x +ℤ d.x); y = wrap (center.y +ℤ d.y) } in
      let ((w', id), read) = serves.block_read w p in
      rw read (
        if_done (W × Vec2) (id == grass_block_id) _ _
          (let ((w'', v), noted) = serves.metadata_read w' p "growth" in
            rw noted (
              if_done (W × Vec2) (grown ops api (value_int v)) _ _ ((w'', p), refl)
                (look-done w'' center ds)))
          (look-done w' center ds)))

module _ {F W : Type 0} (ops : FloatOps F) (api : EntityApi F W) (serves : Serves api)
    (ab : AnimalBehavior F) (draws : Draws F) where
  graze-Keeps :
      (w : W) (target : Vec2) (e : Entity F) (o : Option ℤ)
      → IsWhole e
      → Keeps (graze ops api ab draws w target e o)
  unfolding graze
  graze-Keeps w target e none h = (w, e, refl, h)
  graze-Keeps w target e (some growth) h =
      if-Keeps ops api serves (ltb_ℤ (pos 0) growth) _ _
        (let (w', set) =
            serves.metadata_set w target "growth" (Value.int (wrap (growth -ℤ pos 1))) in
          rw set (
            if-Keeps ops api serves (leb_ℤ growth (pos 1)) _ _
              (let (w'', placed) = serves.block_set w' target sand_block_id in
                (w'', e, rw placed refl, h))
              (w', e, refl, h)))
        (w, e, refl, h)

  reach-Keeps :
      (w : W) (target : Vec2) (e : Entity F)
      → IsWhole e
      → Keeps (reach_grass ops api ab draws w target e)
  unfolding reach_grass put
  reach-Keeps w target e h =
      let ((w', id), read) = serves.block_read w target in
      rw read (
        if-Keeps ops api serves (id == grass_block_id) _ _
          (let ((w'', v), noted) = serves.metadata_read w' target "growth" in
            rw noted (
              graze-Keeps w'' target (start_eating ops api ab draws e) (value_int v)
                (put_timer _ _ (put_state "eating" e.payload h))))
          (w', _, refl, put_timer _ _ (put_state "idle" e.payload h)))

  go_to-Keeps :
      (w : W) (e : Entity F) (o : Option Vec2)
      → IsWhole e
      → Keeps (go_to_grass ops api ab draws w e o)
  unfolding go_to_grass head_for
  go_to-Keeps w e none h = (w, e, refl, h)
  go_to-Keeps w e (some target) h =
      if-Keeps ops api serves _ _ _ (reach-Keeps w target e h)
        (w, head_for ops ab draws e target, refl, h)

  go_on-Keeps :
      (w : W) (e : Entity F) (state : String)
      → IsWhole e
      → Keeps (go_on_as_cow ops api ab draws w e state)
  unfolding go_on_as_cow
  go_on-Keeps w e state h =
      if-Keeps ops api serves (state == "eating") _ _ (w, _, refl, h)
        (if-Keeps ops api serves (state == "moving_to_grass") _ _ (go_to-Keeps w e _ h)
          (w, _, refl, process_state-IsWhole ops ab draws e state h))

  end-IsWhole :
      (e : Entity F) (state : String) (timer : F) (hunger : ℤ)
      → IsWhole e
      → IsWhole (end_as_cow ops api ab draws e state timer hunger)
  unfolding end_as_cow put
  end-IsWhole e state timer hunger h =
      if-HasData (state == "eating") _ _ (put_hunger _ _ (put_state "idle" e.payload h)) (
        if-HasData (state == "moving_to_grass") _ _ (put_state "idle" e.payload h)
          (update_base_state-IsWhole ops ab draws e state timer h))

  timed-Keeps :
      (w : W) (e : Entity F) (state : String) (timer : F) (hunger : ℤ)
      → IsWhole e
      → Keeps (timed ops api ab draws w e state timer hunger)
  unfolding timed put
  timed-Keeps w e state timer hunger h =
      if-Keeps ops api serves (ops.at_most timer (ops.lit 0 0)) _ _
        (w, _, refl, end-IsWhole e state timer hunger h)
        (go_on-Keeps w (put "actionTimer" (float timer) e) state (put_timer timer e.payload h))

  find-done : (w : W) (e : Entity F) → (r : W × Vec2) × (find_nearby_grass ops api w e ≡ done r)
  unfolding find_nearby_grass
  find-done w e = look-done ops api serves w e.position (rows offsets)

  search-Keeps :
      (w : W) (e : Entity F) (state : String) (timer : F) (hunger : ℤ)
      → IsWhole e
      → Keeps (search ops api ab draws w e state timer hunger)
  unfolding search seek put
  search-Keeps w e state timer hunger h =
      let ((w', grass), looked) = find-done w e in
      rw looked (
        if-Keeps ops api serves (not (grass.x == pos 0) || not (grass.y == pos 0))
          (done (w', seek ops api ab draws grass e))
          (timed ops api ab draws w' e state timer hunger)
          (
            w',
            _,
            refl,
            put_timer _ _ (put_target grass _ (put_state "moving_to_grass" e.payload h)),
          )
          (timed-Keeps w' e state timer hunger h))

  pub update_cow_state-Keeps :
      (w : W) (e : Entity F) (state : String) (timer : F)
      → IsWhole e
      → Keeps (update_cow_state ops api ab draws w e state timer)
  unfolding update_cow_state fetch
  update_cow_state-Keeps w e state timer h =
      let hunger = h.hungry.0 in
      rw h.hungry.1 (
        if-Keeps ops api serves (wants_grass ops api ab draws state hunger)
          (search ops api ab draws w e state timer hunger)
          (timed ops api ab draws w e state timer hunger) (search-Keeps w e state timer hunger h)
          (timed-Keeps w e state timer hunger h))
