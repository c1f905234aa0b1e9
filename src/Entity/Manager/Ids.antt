-- ===== src/Entity/Manager/Ids.antt =====
-- The identifiers that the manager gives to entities.
use mmo_game.Prelude.{
  ℕ, ◌+◌, ◌%◌, ◌^◌, ◌≤◌, ◌<◌, String, Option, none, some, List, [], ◌∷◌, ◌≡◌, refl, subst, length,
  All, lookup-insert_self, nat_eq, arith,
}
use mmo_game.Prelude.Outcome.{Outcome, done, done-injective, >>=-eq-done, ◌>>=◌}
use mmo_game.Vec.{Vec2}
use mmo_game.Vec.Float.{FloatOps}
use mmo_game.Block.{Registry}
use mmo_game.Entity.Manager.Movement.{process_movement}
use mmo_game.Entity.{Entity, EntityApi, Draws, MovementDirection, new_entity}
use mmo_game.Entity.Behavior.{EntityBehavior}
use mmo_game.Entity.Identity.{SameEntity, on_spawn-same}
use mmo_game.Entity.Manager.{
  EntityManager, new_entity_manager, get_entity, get_behavior, add_entity, despawn_entity,
  spawn_entity, spawned, spawn_animal, register_behavior, update_entities, update_entities,
}
use mmo_game.Entity.Manager.Counted.{
  IsCounted, unknown, weaken, spawn-IsCounted, animal_call-IsCounted, adopt-IsCounted,
  removed-IsCounted,
}
use mmo_game.Entity.Manager.Counted.Moves.{updated-IsCounted, walked-IsCounted}

-- The calls that change the manager.
pub data Call (F : Type 0) : Type 0 where
  registers : ℕ → EntityBehavior F → Call F
  spawn : Draws F → ℕ → Vec2 → Call F
  animal : Draws F → ℕ → Vec2 → Call F
  adopt : Entity F → Call F
  despawn : ℕ → Call F
  updates : (ℕ → Draws F) → F → Call F
  walks : Draws F → ℕ → MovementDirection → F → Call F

-- The ids that are chosen outside are below 2^63.
abbrev pub Fits : {F : Type 0} → Call F → Type 0
Fits (adopt e) = e.id < 2 ^ 63
Fits _ = Unit {0}

module _ {F W : Type 0} (ops : FloatOps F) (api : EntityApi F W) (registry : Registry)
    (format_uint : ℕ → String) where
  -- A call, with the state of the world that the behaviours work on. A panic leaves nothing to
  -- call.
  unfoldable pub call : W → EntityManager F → Call F → Outcome (W × EntityManager F)
  call w em (registers kind b) = done (w, register_behavior kind b em)
  call w em (spawn draws kind p) = done (w, (spawn_entity ops format_uint draws em kind p).0)
  call w em (animal draws kind p) =
      spawn_animal ops format_uint draws em kind p >>= λ (em', id). done (w, em')
  call w em (adopt e) = done (w, add_entity em e)
  call w em (despawn id) = done (w, (despawn_entity em id).0)
  call w em (updates draws dt) = update_entities ops api draws w em dt
  call w em (walks draws id direction dt) =
      process_movement ops api registry draws em w id direction dt >>= λ (w', em', walked).
      done (w', em')

  unfoldable pub calls : W → EntityManager F → List (Call F) → Outcome (W × EntityManager F)
  unfolding call
  calls w em [] = done (w, em)
  calls w em (c ∷ cs) = call w em c >>= λ (w', em'). calls w' em' cs

module _ {F : Type 0} (ops : FloatOps F) (format_uint : ℕ → String) where
  pub spawned-same :
      (o : Option (EntityBehavior F)) (draws : Draws F) (e : Entity F)
      → SameEntity e (spawned ops format_uint o draws e)
  spawned-same none draws e = record {
    same_id = refl;
    same_type = refl;
    same_position = refl;
    same_active = refl;
  }
  spawned-same (some b) draws e = on_spawn-same ops format_uint b draws e

module _ {F W : Type 0} (ops : FloatOps F) (api : EntityApi F W) (registry : Registry)
    (format_uint : ℕ → String) where
  -- A call that returns raises the counter by one at most, or to 2^63.
  call-IsCounted :
      (bound : ℕ) (w w' : W) (em em' : EntityManager F) (c : Call F)
      → 2 ^ 63 ≤ bound
      → bound + 1 < 2 ^ 64
      → Fits c
      → IsCounted bound em
      → call ops api registry format_uint w em c ≡ done (w', em')
      → IsCounted (bound + 1) em'
  unfolding call spawn_animal despawn_entity register_behavior
  call-IsCounted bound w w' em em' c low high fits h e = called c fits e
    where
      returned :
          (o : EntityManager F)
          → IsCounted (bound + 1) o
          → ◌≡◌ {A = Outcome (W × EntityManager F)} (done (w, o)) (done (w', em'))
          → IsCounted (bound + 1) em'
      returned o k same =
          subst (λ (r : W × EntityManager F). IsCounted (bound + 1) r.1) (done-injective same) k

      called :
          (c : Call F)
          → Fits c
          → call ops api registry format_uint w em c ≡ done (w', em')
          → IsCounted (bound + 1) em'
      called (registers kind b) fits e =
          returned _ (record { keys = h.keys; bounded = omega (arith, h.bounded) }) e
      called (spawn draws kind p) fits e =
          returned _ (spawn-IsCounted ops format_uint bound em draws kind p high h) e
      called (animal draws kind p) fits e =
          let (r, spawns, same) = >>=-eq-done (spawn_animal ops format_uint draws em kind p) _ e in
          returned r.0
            (animal_call-IsCounted ops format_uint bound em r.0 draws kind p r.1 high h spawns) same
      called (adopt x) fits e =
          returned _ (adopt-IsCounted ops format_uint bound em x low high fits h) e
      called (despawn id) fits e =
          returned _ (weaken (removed-IsCounted ops format_uint bound _ em id h)) e
      called (updates draws dt) fits e =
          weaken (updated-IsCounted ops api registry bound draws em em' w w' dt h e)
      called (walks draws id direction dt) fits e =
          let (r, walked, same) =
            >>=-eq-done (process_movement ops api registry draws em w id direction dt) _ e in
          let k =
            walked-IsCounted ops api registry bound draws em r.1 w r.0 id direction dt r.2 h
              walked in
          let left : (r.0, r.1) ≡ (w', em') = done-injective same in
          subst (λ (m : EntityManager F). IsCounted (bound + 1) m) (λ i. (left i).1) (weaken k)

  calls-IsCounted :
      (cs : List (Call F)) (bound : ℕ) (w w' : W) (em em' : EntityManager F)
      → 2 ^ 63 ≤ bound
      → bound + length cs < 2 ^ 64
      → All Fits cs
      → IsCounted bound em
      → calls ops api registry format_uint w em cs ≡ done (w', em')
      → IsCounted (bound + length cs) em'
  unfolding calls
  calls-IsCounted [] bound w w' em em' low high fits h e =
      subst (λ (r : W × EntityManager F). IsCounted (bound + 0) r.1) (done-injective e)
        (record { keys = h.keys; bounded = omega (arith, h.bounded) })
  calls-IsCounted (c ∷ cs) bound w w' em em' low high fits h e =
      let (m, called, rest) = >>=-eq-done _ _ e in
      let k =
        calls-IsCounted cs (bound + 1) m.0 w' m.1 em' (omega arith) (omega arith) fits.1
          (call-IsCounted bound w m.0 em m.1 c low (omega arith) fits.0 h called) rest in
      record { keys = k.keys; bounded = omega (arith, k.bounded) }

  -- After any calls that a new manager returns from, fewer than 2^63 - 1 of them and with ids
  -- chosen outside below 2^63, whatever behaviours they register and whatever the world does,
  -- SpawnEntity gives an id that no entity has, under which the new entity, of the given type and
  -- at the given position, is found.
  pub spawn_entity-fresh :
      (cs : List (Call F)) (w w' : W) (em : EntityManager F) (draws : Draws F) (kind : ℕ) (p : Vec2)
      → length cs + 1 < 2 ^ 63
      → All Fits cs
      → calls ops api registry format_uint w new_entity_manager cs ≡ done (w', em)
      → (get_entity em (spawn_entity ops format_uint draws em kind p).1 ≡ none)
        × (e : Entity F) × (get_entity
              (spawn_entity ops format_uint draws em kind p).0
              (spawn_entity ops format_uint draws em kind p).1
            ≡ some e)
        × (e.entity_type ≡ kind)
        × (e.position ≡ p)
  unfolding spawn_entity get_entity new_entity
  spawn_entity-fresh cs w w' em draws kind p few fits e =
      let h =
        calls-IsCounted cs (2 ^ 63) w w' new_entity_manager em (omega arith) (omega arith) fits
          (record { keys = tt; bounded = omega arith }) e in
      let id = (em.next_entity_id + 1) % 2 ^ 64 in
      let same =
        spawned-same ops format_uint (get_behavior em kind) draws (new_entity ops id kind p) in
      (
        unknown em.next_entity_id id em.entities (omega (arith, h.bounded)) h.keys,
        _,
        lookup-insert_self id _ em.entities,
        same.same_type,
        same.same_position,
      )
