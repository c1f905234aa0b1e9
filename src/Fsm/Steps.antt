-- ===== src/Fsm/Steps.antt =====
-- How far an entity can go.
use mmo_game.Prelude.{
  Bool, true, false, Option, none, some, ◌≡◌, refl, ◌⊎◌, inl, inr, if◌then◌else◌, ◌||◌,
}
use mmo_game.Vec.{Vec2}
use mmo_game.Vec.Float.{FloatOps}
use mmo_game.Fsm.{
  State, idle, wander, Entity, Draws, move_to, next_position, new_idle_state, enter, later, at_goal,
  stepped, update_state, changed, update_in, update,
}

module _ {F : Type 0} (ops : FloatOps F) (can_move : Entity F → Vec2 → Bool) where
  -- Where a call of Update may leave an entity: where it was, or a block nearer to a target, where
  -- the world has let it in.
  abbrev pub Steps : Entity F → Entity F → Type 0
  Steps e e' =
      (e'.position ≡ e.position)
      ⊎ ((target : Vec2) × (s : State F) × (e'.position ≡ next_position e.position target)
          × (can_move (record e { current_state = some s }) (next_position e.position target)
              ≡ true))

  -- A call that leaves the entity's identity alone.
  pub record IsUpdate (e e' : Entity F) : Type 0 where
    pub same_id : e'.id ≡ e.id
    pub same_type : e'.entity_type ≡ e.entity_type
    pub steps : Steps e e'

  enter-IsUpdate :
      (draws : Draws F) (s : State F) (e e' : Entity F)
      → IsUpdate e e'
      → IsUpdate e (enter ops draws s e')
  unfolding enter
  enter-IsUpdate draws (idle time most) e e' h = record {
    same_id = h.same_id;
    same_type = h.same_type;
    steps = h.steps;
  }
  enter-IsUpdate draws (wander target speed time most) e e' h = record {
    same_id = h.same_id;
    same_type = h.same_type;
    steps = h.steps;
  }

  changed-IsUpdate :
      (draws : Draws F) (e : Entity F) (r : Entity F × Option (State F))
      → IsUpdate e r.0
      → IsUpdate e (changed ops draws can_move r)
  unfolding changed
  changed-IsUpdate draws e (e', none) h = h
  changed-IsUpdate draws e (e', some s) h = enter-IsUpdate draws s e e' h

  stays : (e : Entity F) (s : Option (State F)) → IsUpdate e (record e { current_state = s })
  stays e s = record { same_id = refl; same_type = refl; steps = inl refl }

  moved-IsUpdate :
      (draws : Draws F) (s : State F) (e : Entity F) (target : Vec2) (free : Bool)
      → can_move (record e { current_state = some s }) (next_position e.position target) ≡ free
      → IsUpdate e
          (stepped ops draws can_move (
            if free
            then (
              record e { current_state = some s; position = next_position e.position target },
              true,
            )
            else (record e { current_state = some s }, false))).0
  unfolding stepped
  moved-IsUpdate draws s e target true let_in = record {
    same_id = refl;
    same_type = refl;
    steps = inr (target, s, refl, let_in);
  }
  moved-IsUpdate draws s e target false let_in = stays e (some s)

  update_state-IsUpdate :
      (draws : Draws F) (s : State F) (e : Entity F)
      → IsUpdate e (update_state ops draws can_move s e).0
  unfolding update_state move_to
  update_state-IsUpdate draws (idle time most) e = stays e _
  update_state-IsUpdate draws (wander target speed time most) e =
      over (ops.at_most most (later ops time) || at_goal e.position target)
    where
      s : State F
      s = wander target speed (later ops time) most

      over :
          (b : Bool)
          → IsUpdate e
              (if b
                then (record e { current_state = some s }, some (new_idle_state ops draws))
                else stepped ops draws can_move (
                    move_to can_move
                      (record e { current_state = some s })
                      (next_position e.position target))).0
      over true = stays e (some s)
      over false =
          moved-IsUpdate draws s e target
            (can_move (record e { current_state = some s }) (next_position e.position target)) refl

  -- A call of Update leaves the entity's id and type, and leaves it where it is or moves it by one
  -- block in each direction at most, towards one target, to a position that the world's
  -- CanEntityMoveTo has let it into.
  pub update-IsUpdate : (draws : Draws F) (e : Entity F) → IsUpdate e (update ops draws can_move e)
  unfolding update update_in
  update-IsUpdate draws e = by_state e.current_state
    where
      by_state : (o : Option (State F)) → IsUpdate e (update_in ops draws can_move o e)
      by_state none = record { same_id = refl; same_type = refl; steps = inl refl }
      by_state (some s) = changed-IsUpdate draws e _ (update_state-IsUpdate draws s e)
