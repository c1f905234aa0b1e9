-- ===== src/World/Saves.antt =====
-- Saving the world: internal/world/world.go. The entities that go to the function for saving are
-- returned, in order; there may be no such function. What that function answers is only logged.
use mmo_game.Prelude.{ℕ, ◌+◌, ltb, Bool, true, not, ◌&&◌, List, [], ◌∷◌, if◌then◌else◌}
use mmo_game.Vec.{Vec2, vec2_eq}
use mmo_game.Events.{Entities, Event, block_event, entity_event, save_event, entity_save_event}
use mmo_game.BigChunk.{BigChunk}
use mmo_game.World.{World}
use mmo_game.World.Route.{Notice, tick_all, routed}

-- A minute in nanoseconds.
abbrev pub minute : ℕ
minute = 60000000000

abbrev pub Saved : Type 0 → Type 0
Saved F = List (Vec2 × Entities F)

module _ {F : Type 0} where
  unfoldable pub save_entities : Bool → Vec2 → Entities F → Saved F
  save_entities has_save k entities = if has_save then (k, entities) ∷ [] else []

  abbrev pub entities_of : Bool → List (Vec2 × BigChunk F) → Saved F
  entities_of has_save [] = []
  entities_of has_save ((k, bc) ∷ m) =
      let rest = entities_of has_save m in if has_save then (k, bc.entities) ∷ rest else rest

  -- The first time is when the check is made, the second when the loop has ended.
  unfoldable pub save_world : Bool → World F → Bool → ℕ → ℕ → World F × Saved F
  unfolding tick_all
  save_world has_save w force now later =
      if not force && ltb now (w.last_save_time + minute) then (w, []) else (
        record w {
          big_chunks = tick_all (save_event force []) w.big_chunks;
          last_save_time = later;
        },
        entities_of has_save w.big_chunks,
      )

  unfoldable pub process_save_event : Bool → World F → Event F → ℕ → ℕ → World F × Saved F
  unfolding save_world save_entities
  process_save_event has_save w (save_event forced _) now later =
      save_world has_save w forced now later
  process_save_event has_save w (entity_save_event k entities) now later =
      (w, save_entities has_save k entities)
  process_save_event has_save w _ now later = (w, [])

  -- A save that is forced, and then the end of the context.
  unfoldable pub stop : Bool → World F → ℕ → ℕ → World F × Saved F
  unfolding save_world
  stop has_save w now later = save_world has_save w true now later

module _ {F : Type 0} (load : Vec2 → Entities F → Entities F) (marshals : Event F → Bool) where
  unfoldable pub handle_event :
      Bool → World F → Event F → ℕ → ℕ → World F × List (Notice F) × Saved F
  unfolding routed process_save_event
  handle_event has_save w (block_event e) now later =
      let sent = routed load marshals w (block_event e) in (sent.0, sent.1, [])
  handle_event has_save w (entity_event e) now later =
      let sent = routed load marshals w (entity_event e) in (sent.0, sent.1, [])
  handle_event has_save w e now later =
      let saved = process_save_event has_save w e now later in (saved.0, [], saved.1)
