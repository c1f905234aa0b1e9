-- ===== src/Game/Loot.antt =====
-- What picking an item up leaves.
use mmo_game.Prelude.{ℕ, zero, suc, true, false, some, List, [], ◌∷◌, ◌≡◌, refl, ◌==◌, nat_eq}
use mmo_game.Prelude.Outcome.{Outcome, done, ◌>>=◌}
use mmo_game.Vec.Float.{FloatOps}
use mmo_game.Entity.{Entity, item_type}
use mmo_game.Entity.Manager.{get_entity}
use mmo_game.Game.{Game, Sent, to_all, entity_despawn, despawn_entity}
use mmo_game.Game.Actions.{ActionRequest, Reply, further}
use mmo_game.Game.Items.{handle_pickup, take_target, take_entity}

abbrev pub copies : {A : Type 0} → ℕ → A → List A
copies zero a = []
copies (suc n) a = a ∷ copies n a

module _ {F : Type 0} where
  -- The answer to a pickup that succeeds, and the notice to the clients that the item is gone.
  abbrev pub taken : Entity F → Reply × List Sent
  taken item = (
    record { success = true; message = "Предмет подобран"; should_broadcast = true },
    to_all (entity_despawn item.id "deleted") ∷ [],
  )

module _ {F : Type 0} (ops : FloatOps F) where
  -- One request after another, with the answers and what is sent.
  unfoldable pub pickups :
      ℕ → Game F → Entity F → ActionRequest → Outcome (Game F × List (Reply × List Sent))
  pickups zero g actor action = done (g, [])
  pickups (suc n) g actor action = handle_pickup ops g actor action >>= λ (g', r, sent).
      (pickups n g' actor action >>= λ (g'', more). done (g'', (r, sent) ∷ more))

  takes :
      (g : Game F) (actor item : Entity F) (action : ActionRequest) (id : ℕ)
      → action.target_id ≡ some id
      → get_entity g.manager id ≡ some item
      → (item.entity_type == item_type) ≡ true
      → further ops actor.position item.position 2 ≡ false
      → handle_pickup ops g actor action ≡ done (g, (taken item).0, (taken item).1)
  unfolding handle_pickup take_target take_entity despawn_entity
  takes g actor item action id asks there is_item near = rw (asks, there, is_item, near) refl

  -- An item within reach of an entity can be picked up any number of times: every one of the
  -- requests succeeds and tells all clients that the item is gone, and after them the item is
  -- still in the manager.
  pub pickup_again :
      (n : ℕ) (g : Game F) (actor item : Entity F) (action : ActionRequest) (id : ℕ)
      → action.target_id ≡ some id
      → get_entity g.manager id ≡ some item
      → (item.entity_type == item_type) ≡ true
      → further ops actor.position item.position 2 ≡ false
      → (g' : Game F) × (pickups n g actor action ≡ done (g', copies n (taken item)))
        × (get_entity g'.manager id ≡ some item)
  unfolding pickups
  pickup_again n g actor item action id asks there is_item near = (g, repeats n, there)
    where
      repeats : (k : ℕ) → pickups k g actor action ≡ done (g, copies k (taken item))
      repeats zero = refl
      repeats (suc k) = rw (takes g actor item action id asks there is_item near, repeats k) refl
