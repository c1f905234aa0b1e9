-- ===== src/Game/Ticks.antt =====
-- Where a tick of the game cannot return: with an idle NPC, and with an animal of SpawnAnimal.
use mmo_game.Prelude.{ℕ, true, some, List, ◌≡◌, ◌≢◌, refl, sym, ◌∙◌, ap, lookup, nat_eq, string_eq}
use mmo_game.Prelude.Outcome.{blocked, done}
use mmo_game.Vec.{Vec2}
use mmo_game.Vec.Float.{FloatOps}
use mmo_game.Block.{Registry}
use mmo_game.Chunk.{Chunk}
use mmo_game.Events.{Entities}
use mmo_game.Entity.{Entity, Draws, float, string, fetch, npc_type}
use mmo_game.Entity.Npc.{new_npc_behavior}
use mmo_game.Entity.Npc.Watch.{idle_guard-blocks}
use mmo_game.Entity.Behavior.{EntityBehavior, npc, update}
use mmo_game.Entity.Manager.{EntityManager, get_entity, get_behavior, register_default_behaviors}
use mmo_game.Entity.Manager.Updates.{>>=-Fails, update_entities-Fails, default_npc}
use mmo_game.Game.{Game, tick, api_in_update}

module _ {F : Type 0} (ops : FloatOps F) (registry : Registry)
    (load : Vec2 → Entities F → Entities F) (generate : Vec2 → Chunk F) where
  done≢blocked : {A : Type 0} {a : A} → done a ≡ blocked → ⊥
  done≢blocked e = cc

  -- With the default behaviours, a tick never returns while there is an active NPC that is idle, as
  -- OnSpawn leaves it: the update of entities holds the manager's lock while the NPC, a guard,
  -- asks for the entities in range.
  pub idle_npc-stops_tick :
      (draws : ℕ → Draws F) (g g' : Game F) (dt timer : F) (em : EntityManager F) (id : ℕ)
      (e : Entity F)
      → g.manager.behaviors ≡ (register_default_behaviors ops em).behaviors
      → get_entity g.manager id ≡ some e
      → e.entity_type ≡ npc_type
      → e.active ≡ true
      → fetch "state" e ≡ some (string "idle")
      → fetch "actionTimer" e ≡ some (float timer)
      → tick registry load generate ops draws g dt ≢ done g'
  unfolding tick get_behavior update new_npc_behavior api_in_update
  idle_npc-stops_tick draws g g' dt timer em id e default found kind active idle timed =
      let guard = new_npc_behavior ops "guard" in
      let behaves : lookup e.entity_type g.manager.behaviors ≡ some (npc guard) =
        ap (λ (k : ℕ). lookup k g.manager.behaviors) kind
        ∙ ap (λ (bs : List (ℕ × EntityBehavior F)). lookup npc_type bs) default
        ∙ default_npc ops em in
      >>=-Fails _ _
        (update_entities-Fails ops (api_in_update registry load generate) draws g.world g.manager id
          e (npc guard) dt found behaves active
          λ w. λ r. λ q. done≢blocked (
            sym q
            ∙ idle_guard-blocks ops (api_in_update registry load generate) guard (draws e.id) w e
                timer dt (λ w p r. refl) refl idle timed))
        g'
