-- ===== src/Game/Ownership.antt =====
-- What a client's moves can change.
use mmo_game.Prelude.{
  ℕ, String, Bool, true, false, some, List, [], ◌∷◌, ◌++◌, ◌≡◌, refl, ap, sym, subst, ◌∙◌, ◌⊎◌, inl,
  inr, beq_cases, All, lookup, insert, lookup-insert, lookup-insert_self, ◌==◌, nat_eq, string_eq,
}
use mmo_game.Prelude.Outcome.{done}
use mmo_game.Vec.{Vec2}
use mmo_game.Vec.Float.{FloatOps, to_vec2}
use mmo_game.Block.{Registry}
use mmo_game.Chunk.{Chunk}
use mmo_game.Chunk.Cells.{Cells}
use mmo_game.Events.{Entities, Event}
use mmo_game.World.View.{view}
use mmo_game.World.Messages.{process_entity_movement-view}
use mmo_game.Entity.{Entity}
use mmo_game.Entity.Manager.{get_entity, write_entity}
use mmo_game.Game.{Game, Sent}
use mmo_game.Game.Sight.{walkable, is_position_walkable-view}
use mmo_game.Game.Moves.{
  MoveEntry, placed, move_if, move_to, move_found, move_entry, move_entries, move_for,
  handle_entity_move,
}

-- An entry that says where to.
abbrev pub IsAimed : MoveEntry → Type 0
IsAimed entry = (p : Vec2) × (entry.position ≡ some p)

module _ {F : Type 0} (ops : FloatOps F) (registry : Registry)
    (load : Vec2 → Entities F → Entities F) (generate : Vec2 → Chunk F)
    (marshals : Event F → Bool) where
  -- An entity that is as it was, or has been put where an entity can stand.
  abbrev pub HasMoved : Cells F → Entity F → Entity F → Type 0
  HasMoved cells e e' =
      (e' ≡ e) ⊎ ((p : Vec2) × (walkable registry cells p ≡ true) × (e' ≡ placed ops e p))

  -- All that has changed is where one entity is.
  pub record OnlyMoves (id : ℕ) (e : Entity F) (g g' : Game F) : Type 0 where
    pub others : (j : ℕ) → (id == j) ≡ false → get_entity g'.manager j ≡ get_entity g.manager j
    pub same_cells : view generate g'.world ≡ view generate g.world
    pub moved :
        (e' : Entity F) × (get_entity g'.manager id ≡ some e')
        × (e'.id ≡ id)
        × HasMoved (view generate g.world) e e'

  placed_again :
      (cells : Cells F) (e e' : Entity F) (p : Vec2)
      → HasMoved cells e e'
      → placed ops e' p ≡ placed ops e p
  unfolding placed
  placed_again cells e e' p (inl same) = ap (λ (x : Entity F). placed ops x p) same
  placed_again cells e e' p (inr (q, free, same)) = ap (λ (x : Entity F). placed ops x p) same

  move_if-OnlyMoves :
      (id : ℕ) (e : Entity F) (g g' : Game F) (conn_id : String) (e' : Entity F) (p : Vec2)
      (free : Bool)
      → e'.id ≡ id
      → get_entity g'.manager id ≡ some e'
      → HasMoved (view generate g.world) e e'
      → walkable registry (view generate g.world) p ≡ free
      → OnlyMoves id e g g'
      → OnlyMoves id e g (move_if ops registry load generate marshals free g' conn_id e' p).0
  unfolding move_if get_entity write_entity placed
  move_if-OnlyMoves id e g g' conn_id e' p false known there moved free h = h
  move_if-OnlyMoves id e g g' conn_id e' p true known there moved free h =
      let x = placed ops e' p in
      record {
        others = λ j other.
            lookup-insert j x.id x g'.manager.entities ∙ rw (known, other) (h.others j other);
        same_cells =
            process_entity_movement-view load generate marshals g'.world e'.id
              (to_vec2 ops e'.precise_pos) p
            ∙ h.same_cells;
        moved = (
          x,
          subst (λ (k : ℕ). lookup k (insert x.id x g'.manager.entities) ≡ some x) known
              (lookup-insert_self x.id x g'.manager.entities),
          known,
          inr (p, free, placed_again (view generate g.world) e e' p moved),
        );
      }

  move_to-OnlyMoves :
      (id : ℕ) (e : Entity F) (g g' : Game F) (conn_id : String) (e' : Entity F) (p : Vec2)
      → e'.id ≡ id
      → get_entity g'.manager id ≡ some e'
      → HasMoved (view generate g.world) e e'
      → OnlyMoves id e g g'
      → (g'' : Game F) × (sent : List Sent) × (move_to ops registry load generate marshals g'
            conn_id e'
            (some p)
          ≡ done (g'', sent))
        × OnlyMoves id e g g''
  unfolding move_to
  move_to-OnlyMoves id e g g' conn_id e' p known there moved h =
      let (w, walks, same) = is_position_walkable-view registry load generate g'.world p in
      let free = walkable registry (view generate g'.world) p in
      let r =
        move_if ops registry load generate marshals free (record g' { world = w }) conn_id e' p in
      (
        r.0,
        r.1,
        rw walks refl,
        move_if-OnlyMoves id e g (record g' { world = w }) conn_id e' p free known there moved
            (ap (λ (cells : Cells F). walkable registry cells p) (sym h.same_cells))
            (record { others = h.others; same_cells = same ∙ h.same_cells; moved = h.moved }),
      )

  move_entry-OnlyMoves :
      (id : ℕ) (e : Entity F) (g g' : Game F) (conn_id : String) (entry : MoveEntry)
      → IsAimed entry
      → OnlyMoves id e g g'
      → (g'' : Game F) × (sent : List Sent) × (move_entry ops registry load generate marshals g'
            conn_id id entry
          ≡ done (g'', sent))
        × OnlyMoves id e g g''
  unfolding move_entry move_found
  move_entry-OnlyMoves id e g g' conn_id entry (p, aimed) h =
      let (e', there, known, moved) = h.moved in
      elim (beq_cases nat_eq entry.id id) [
        | inr f ↦ (g', [], rw f refl, h)
        | inl (t, same) ↦
            let (g'', sent, moves, h') =
              move_to-OnlyMoves id e g g' conn_id e' p known there moved h in
            (g'', sent, rw (t, same, there, aimed) moves, h')
      ]

  move_entries-OnlyMoves :
      (entries : List MoveEntry) (id : ℕ) (e : Entity F) (g g' : Game F) (conn_id : String)
      → All IsAimed entries
      → OnlyMoves id e g g'
      → (g'' : Game F) × (sent : List Sent) × (move_entries ops registry load generate marshals g'
            conn_id id entries
          ≡ done (g'', sent))
        × OnlyMoves id e g g''
  unfolding move_entries
  move_entries-OnlyMoves [] id e g g' conn_id aimed h = (g', [], refl, h)
  move_entries-OnlyMoves (entry ∷ entries) id e g g' conn_id aimed h =
      let (g₁, sent, moves, h₁) = move_entry-OnlyMoves id e g g' conn_id entry aimed.0 h in
      let (g₂, more, moves₂, h₂) = move_entries-OnlyMoves entries id e g g₁ conn_id aimed.1 h₁ in
      (g₂, sent ++ more, rw (moves, moves₂) refl, h₂)

  -- A message of moves, each with a position, from a client that has an entity returns. No other
  -- entity and no cell of the world is changed by it, whatever entities it names, and the client's
  -- own entity is as it was or has been put at a position where an entity can stand.
  pub handle_entity_move-OnlyMoves :
      (g : Game F) (conn_id : String) (id : ℕ) (e : Entity F) (entries : List MoveEntry)
      → lookup conn_id g.player_entities ≡ some id
      → get_entity g.manager id ≡ some e
      → e.id ≡ id
      → All IsAimed entries
      → (g' : Game F) × (sent : List Sent) × (handle_entity_move ops registry load generate marshals
            g conn_id
            (some entries)
          ≡ done (g', sent))
        × OnlyMoves id e g g'
  unfolding handle_entity_move move_for
  handle_entity_move-OnlyMoves g conn_id id e entries owns there known aimed = rw owns (
      move_entries-OnlyMoves entries id e g g conn_id aimed (record {
        others = λ j other. refl;
        same_cells = refl;
        moved = (e, there, known, inl refl);
      }))
