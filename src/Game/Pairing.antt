-- ===== src/Game/Pairing.antt =====
-- The two maps by connection, of sessions and of entities.
use mathlib.Core.Option.{map as map_option}
use mmo_game.Prelude.{
  ℕ, String, Bool, true, false, not, Option, none, some, List, [], ◌∷◌, ◌≡◌, refl, sym, ap, ◌∙◌,
  lookup, lookup-insert, lookup-delete, if◌then◌else◌, ◌==◌, string_eq,
}
use mmo_game.Vec.Float.{FloatOps}
use mmo_game.Users.Authenticator.{AuthResult}
use mmo_game.Entity.{Draws}
use mmo_game.Game.{Game, Session, Sent, spawn_entity_with_id}
use mmo_game.Game.Sessions.{
  on_client_disconnect, leave, handle_auth, decoded, answered, enter_if, enter, is_session_valid,
  given,
}

-- Every session's entity is its connection's, and no other connection has one.
abbrev pub IsPaired : {F : Type 0} → Game F → Type 0
IsPaired g =
    (conn_id : String)
    → lookup conn_id g.player_entities
      ≡ map_option (λ (s : Session). s.entity_id) (lookup conn_id g.sessions)

-- What the clients' connections ask for.
pub data Visit (F : Type 0) : Type 0 where
  comes :
      Draws F
      → Option (String → String → Option AuthResult)
      → String
      → Option (String × Option String)
      → Visit F
  goes : String → Visit F

module _ {F : Type 0} (ops : FloatOps F) (format_uint : ℕ → String) where
  unfoldable pub visit : Game F → Visit F → Game F
  visit g (comes draws authenticate conn_id request) =
      (handle_auth ops format_uint draws authenticate g conn_id request).0
  visit g (goes conn_id) = (on_client_disconnect g conn_id).0

  unfoldable pub visits : Game F → List (Visit F) → Game F
  unfolding visit
  visits g [] = g
  visits g (v ∷ vs) = visits (visit g v) vs

  written_both :
      (t : Bool) (id : ℕ) (session : Session) (o : Option ℕ) (o' : Option Session)
      → session.entity_id ≡ id
      → o ≡ map_option (λ (s : Session). s.entity_id) o'
      → (if t then some id else o)
        ≡ map_option (λ (s : Session). s.entity_id) (if t then some session else o')
  written_both true id session o o' same h = ap some (sym same)
  written_both false id session o o' same h = h

  deleted_both :
      (t : Bool) (o : Option ℕ) (o' : Option Session)
      → o ≡ map_option (λ (s : Session). s.entity_id) o'
      → (if t then none else o) ≡ map_option (λ (s : Session). s.entity_id) (if t then none else o')
  deleted_both true o o' h = refl
  deleted_both false o o' h = h

  enter-IsPaired :
      (draws : Draws F) (g : Game F) (conn_id username : String) (result : AuthResult)
      → IsPaired g
      → IsPaired (enter ops format_uint draws g conn_id username result).0
  unfolding enter spawn_entity_with_id
  enter-IsPaired draws g conn_id username result h c =
      lookup-insert c conn_id _ g.player_entities
      ∙ written_both (conn_id == c) _ _ _ _ refl (h c)
      ∙ sym (ap (map_option (λ (s : Session). s.entity_id)) (lookup-insert c conn_id _ g.sessions))

  enter_if-IsPaired :
      (draws : Draws F) (o : Option ℕ) (g : Game F) (conn_id username : String)
      (result : AuthResult)
      → IsPaired g
      → IsPaired (enter_if ops format_uint draws o g conn_id username result).0
  unfolding enter_if
  enter_if-IsPaired draws none g conn_id username result h =
      enter-IsPaired draws g conn_id username result h
  enter_if-IsPaired draws (some id) g conn_id username result h = h

  if-IsPaired :
      (b : Bool) (r r' : Game F × List Sent)
      → IsPaired r.0
      → IsPaired r'.0
      → IsPaired (if b then r else r').0
  if-IsPaired true r r' h h' = h
  if-IsPaired false r r' h h' = h'

  answered-IsPaired :
      (draws : Draws F) (o : Option AuthResult) (g : Game F) (conn_id username : String)
      → IsPaired g
      → IsPaired (answered ops format_uint draws o g conn_id username).0
  unfolding answered
  answered-IsPaired draws none g conn_id username h = h
  answered-IsPaired draws (some result) g conn_id username h =
      if-IsPaired (not result.success) _ _ h
        (enter_if-IsPaired draws (lookup conn_id g.player_entities) g conn_id username result h)

  decoded-IsPaired :
      (draws : Draws F) (authenticate : String → String → Option AuthResult) (g : Game F)
      (conn_id : String) (request : Option (String × Option String))
      → IsPaired g
      → IsPaired (decoded ops format_uint draws authenticate g conn_id request).0
  unfolding decoded
  decoded-IsPaired draws authenticate g conn_id none h = h
  decoded-IsPaired draws authenticate g conn_id (some (username, password)) h =
      if-IsPaired (is_session_valid g conn_id) _ _ h
        (answered-IsPaired draws (authenticate username (given password)) g conn_id username h)

  leave-IsPaired :
      (o : Option Session) (o' : Option ℕ) (g : Game F) (conn_id : String)
      → IsPaired g
      → IsPaired (leave o o' g conn_id).0
  unfolding leave
  leave-IsPaired (some session) (some id) g conn_id h c =
      lookup-delete c conn_id g.player_entities
      ∙ deleted_both (conn_id == c) _ _ (h c)
      ∙ sym (ap (map_option (λ (s : Session). s.entity_id)) (lookup-delete c conn_id g.sessions))
  leave-IsPaired none o' g conn_id h c = h c
  leave-IsPaired (some session) none g conn_id h c = h c

  visit-IsPaired : (g : Game F) (v : Visit F) → IsPaired g → IsPaired (visit g v)
  unfolding visit handle_auth on_client_disconnect
  visit-IsPaired g (comes draws none conn_id request) h = h
  visit-IsPaired g (comes draws (some authenticate) conn_id request) h =
      decoded-IsPaired draws authenticate g conn_id request h
  visit-IsPaired g (goes conn_id) h =
      leave-IsPaired (lookup conn_id g.sessions) (lookup conn_id g.player_entities) g conn_id h

  -- Whatever connections come and go, with whatever requests and answers of the authenticator, a
  -- connection has an entity just when it has a session, and that entity is the session's, if this
  -- was so before.
  pub visits-IsPaired : (vs : List (Visit F)) (g : Game F) → IsPaired g → IsPaired (visits g vs)
  unfolding visits
  visits-IsPaired [] g h = h
  visits-IsPaired (v ∷ vs) g h = visits-IsPaired vs (visit g v) (visit-IsPaired g v h)
