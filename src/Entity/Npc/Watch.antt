-- ===== src/Entity/Npc/Watch.antt =====
-- A guard's look for players, where the call for the entities in range does not return.
use mmo_game.Prelude.{true, some, ◌≡◌, refl, inl, inr, Bool-cases, ◌==◌, string_eq}
use mmo_game.Prelude.Outcome.{blocked}
use mmo_game.Vec.{Vec2}
use mmo_game.Vec.Float.{FloatOps}
use mmo_game.Entity.{Entity, EntityApi, Draws, float, string, fetch}
use mmo_game.Entity.Npc.{NpcBehavior, started, end_action}
use mmo_game.Entity.Npc.Life.{update}

module _ {F W : Type 0} (ops : FloatOps F) (api : EntityApi F W) (nb : NpcBehavior F) where
  -- An idle guard blocks at its update, when the call for the entities in range does.
  pub idle_guard-blocks :
      (draws : Draws F) (w : W) (e : Entity F) (timer dt : F)
      → ((w : W) (p : Vec2) (r : F) → api.get_entities_in_range w p r ≡ blocked)
      → (nb.npc_type == "guard") ≡ true
      → fetch "state" e ≡ some (string "idle")
      → fetch "actionTimer" e ≡ some (float timer)
      → update ops api nb draws w e dt ≡ blocked
  unfolding update started end_action
  idle_guard-blocks draws w e timer dt blocks guard idle timed =
      elim (Bool-cases (ops.at_most (ops.minus timer dt) (ops.lit 0 0))) [
        | inl t ↦ rw (timed, idle, timed, t, guard, blocks) refl
        | inr f ↦ rw (timed, idle, timed, f, guard, blocks) refl
      ]
