-- ===== src/Game/Fights.antt =====
-- What an attack of a player does, and what the client is told.
use mmo_game.Prelude.{
  ℕ, ℤ, pos, ◌-ℤ◌, wrap, leb_ℤ, Bool, true, false, some, [], ◌≡◌, refl, sym, subst, ◌∙◌, lookup,
  insert, lookup-insert, lookup-insert_self, if◌then◌else◌, ◌==◌, nat_eq,
}
use mmo_game.Prelude.Outcome.{done}
use mmo_game.Vec.Float.{FloatOps}
use mmo_game.Entity.{Entity, Draws, int, fetch}
use mmo_game.Entity.Wounds.{IsHurt, on_damage-IsHurt}
use mmo_game.Entity.Behavior.{EntityBehavior}
use mmo_game.Entity.Manager.{get_entity, get_behavior, write_entity}
use mmo_game.Game.{Game}
use mmo_game.Game.Actions.{
  ActionRequest, Reply, further, handle_attack, attack_target, attack_entity, strike, hurt_target,
}

module _ {F : Type 0} where
  -- The reply to an attack, what is left of the target, and all else.
  pub record IsStruck (g : Game F) (id : ℕ) (health : ℤ) (g' : Game F) (r : Reply) : Type 0 where
    pub tells : r.success ≡ leb_ℤ (wrap (health -ℤ pos 10)) (pos 0)
    pub tells_others : r.should_broadcast ≡ r.success
    pub target_left :
        (e : Entity F) × (get_entity g'.manager id ≡ some e)
        × (fetch "health" e
            ≡ some (
                int (
                  if leb_ℤ (wrap (health -ℤ pos 10)) (pos 0)
                  then pos 0
                  else wrap (health -ℤ pos 10))))
    pub others : (j : ℕ) → (id == j) ≡ false → get_entity g'.manager j ≡ get_entity g.manager j

  written-IsStruck :
      (g : Game F) (e e' : Entity F) (health : ℤ) (dead : Bool) (r : Reply)
      → r.success ≡ dead
      → r.should_broadcast ≡ dead
      → IsHurt e health (pos 10) (e', dead)
      → IsStruck g e.id health (record g { manager = write_entity g.manager e' }) r
  unfolding write_entity get_entity
  written-IsStruck g e e' health dead r tells tells_others h = record {
    tells = tells ∙ h.dies;
    tells_others = tells_others ∙ sym tells;
    target_left = (
      e',
      subst (λ (k : ℕ). lookup k (insert e'.id e' g.manager.entities) ≡ some e') h.hurt_id
          (lookup-insert_self e'.id e' g.manager.entities),
      h.health_left,
    );
    others = λ j other. lookup-insert j e'.id e' g.manager.entities ∙ rw (h.hurt_id, other) refl;
  }

  hurt_target-IsStruck :
      (g : Game F) (e : Entity F) (health : ℤ) (r : Entity F × Bool)
      → IsHurt e health (pos 10) r
      → (g' : Game F) × (reply : Reply) × (hurt_target g r ≡ done (g', reply, []))
        × IsStruck g e.id health g' reply
  unfolding hurt_target
  hurt_target-IsStruck g e health (e', true) h =
      (_, _, refl, written-IsStruck g e e' health true _ refl refl h)
  hurt_target-IsStruck g e health (e', false) h =
      (_, _, refl, written-IsStruck g e e' health false _ refl refl h)

module _ {F : Type 0} (ops : FloatOps F) (draws : Draws F) where
  -- An attack on another entity, which is in reach, has a behaviour and has a health, takes 10
  -- from the health, down to 0, and changes no other entity. The reply is a success, which the
  -- other clients are told of, just when the target dies of it; a blow that is not deadly is
  -- answered as a failure.
  pub handle_attack-IsStruck :
      (g : Game F) (actor target : Entity F) (action : ActionRequest) (id : ℕ)
      (b : EntityBehavior F) (health : ℤ)
      → action.target_id ≡ some id
      → get_entity g.manager id ≡ some target
      → target.id ≡ id
      → get_behavior g.manager target.entity_type ≡ some b
      → further ops actor.position target.position 2 ≡ false
      → (actor.id == target.id) ≡ false
      → fetch "health" target ≡ some (int health)
      → (g' : Game F) × (r : Reply) × (handle_attack ops draws g actor action ≡ done (g', r, []))
        × IsStruck g id health g' r
  unfolding handle_attack attack_target attack_entity strike
  handle_attack-IsStruck g actor target action id b health aims found known behaves near other
        alive =
      let (g', r, does, h) =
        hurt_target-IsStruck g target health _
          (on_damage-IsHurt ops draws b target health (pos 10) (some actor) alive) in
      (
        g',
        r,
        rw (aims, found, near, other, behaves) does,
        subst (λ (k : ℕ). IsStruck g k health g' r) known h,
      )
