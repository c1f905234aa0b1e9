-- ===== src/Game/Return.antt =====
-- A player who leaves and comes back.
use mmo_game.Prelude.{
  ℕ, ◌+◌, ◌%◌, ◌^◌, pos, String, true, false, Option, none, some, ◌≡◌, refl, ap, subst, ◌∙◌, lookup,
  insert, delete, lookup-insert, lookup-insert_self, ◌==◌, nat_eq, string_eq,
}
use mmo_game.Vec.{Vec2, Vec3, to_vec2}
use mmo_game.Vec.Float.{FloatOps}
use mmo_game.Positions.{Repo, save, load}
use mmo_game.Users.Authenticator.{AuthResult}
use mmo_game.Entity.{Entity, Draws, new_entity, player_type}
use mmo_game.Entity.Manager.{get_entity, get_behavior, add_entity, write_entity, spawned}
use mmo_game.Entity.Manager.Ids.{spawned-same}
use mmo_game.Game.{Game, Session, spawn_entity_with_id, get_entity_position, position_of}
use mmo_game.Game.Sessions.{
  spawn_position, loaded_position, kept_position, on_client_disconnect, leave, handle_auth, decoded,
  answered, enter_if, enter, is_session_valid, given,
}

-- Where an entity is seen.
abbrev pub on_floor : Vec2 → Vec3
on_floor p = record { x = p.x; y = p.y; z = pos 1 }

saved_position :
    (repo : Repo) (user_id : ℕ) (p : Vec2)
    → (user_id == 0) ≡ false
    → spawn_position (kept_position (some repo) user_id (some (on_floor p))) user_id ≡ p
unfolding spawn_position loaded_position save load to_vec2
saved_position repo user_id p real = rw (real, lookup-insert_self) refl

module _ {F : Type 0} (ops : FloatOps F) (format_uint : ℕ → String) (draws : Draws F) where
  -- The player's entity of a login, and what becomes of another one.
  entered :
      (g : Game F) (conn_id username : String) (result : AuthResult)
      → (e : Entity F) × (get_entity
            (enter ops format_uint draws g conn_id username result).0.manager
            ((g.last_entity_id + 1) % 2 ^ 64)
          ≡ some e)
        × (e.position ≡ spawn_position g.position_repo result.user_id)
        × ((j : ℕ)
            → ((g.last_entity_id + 1) % 2 ^ 64 == j) ≡ false
            → get_entity (enter ops format_uint draws g conn_id username result).0.manager j
              ≡ get_entity g.manager j)
  unfolding enter spawn_entity_with_id add_entity write_entity get_entity new_entity
  entered g conn_id username result =
      let id = (g.last_entity_id + 1) % 2 ^ 64 in
      let p = spawn_position g.position_repo result.user_id in
      let e₀ = new_entity ops id player_type p in
      let e = spawned ops format_uint (get_behavior g.manager player_type) draws e₀ in
      let same = spawned-same ops format_uint (get_behavior g.manager player_type) draws e₀ in
      let first = insert id e₀ g.manager.entities in
      (
        e,
        subst (λ (k : ℕ). lookup k (insert e.id e first) ≡ some e) same.same_id
            (lookup-insert_self e.id e first),
        same.same_position,
        λ j other.
            lookup-insert j e.id e first
            ∙ rw (same.same_id, other) (lookup-insert j id e₀ g.manager.entities ∙ rw other refl),
      )

  logs_in :
      (g : Game F) (conn_id username : String) (password : Option String)
      (authenticate : String → String → Option AuthResult) (result : AuthResult)
      → lookup conn_id g.sessions ≡ none
      → lookup conn_id g.player_entities ≡ none
      → authenticate username (given password) ≡ some result
      → result.success ≡ true
      → handle_auth ops format_uint draws (some authenticate) g conn_id (some (username, password))
        ≡ enter ops format_uint draws g conn_id username result
  unfolding handle_auth decoded answered enter_if is_session_valid
  logs_in g conn_id username password authenticate result away bare knows good =
      rw (away, knows, good, bare) refl

  leaves :
      (g : Game F) (conn_id : String) (session : Session) (id : ℕ) (e : Entity F) (repo : Repo)
      → lookup conn_id g.sessions ≡ some session
      → lookup conn_id g.player_entities ≡ some id
      → get_entity g.manager id ≡ some e
      → g.position_repo ≡ some repo
      → (on_client_disconnect g conn_id).0 ≡ record g {
        position_repo = kept_position (some repo) session.user_id (some (on_floor e.position));
        player_entities = delete conn_id g.player_entities;
        sessions = delete conn_id g.sessions;
      }
  unfolding on_client_disconnect leave get_entity_position position_of
  leaves g conn_id session id e repo here owns there keeps = rw (here, owns, there, keeps) refl

  -- A player who disconnects and, in a new connection, logs in again as the same user, which is not
  -- user 0, gets an entity that stands where the old one stood. The old entity is not gone: it is in
  -- the manager as it was.
  pub comes_back :
      (g : Game F) (conn_id again username : String) (password : Option String)
      (authenticate : String → String → Option AuthResult) (result : AuthResult) (session : Session)
      (id : ℕ) (e : Entity F) (repo : Repo)
      → lookup conn_id g.sessions ≡ some session
      → lookup conn_id g.player_entities ≡ some id
      → get_entity g.manager id ≡ some e
      → g.position_repo ≡ some repo
      → (session.user_id == 0) ≡ false
      → lookup again (delete conn_id g.sessions) ≡ none
      → lookup again (delete conn_id g.player_entities) ≡ none
      → authenticate username (given password) ≡ some result
      → result.success ≡ true
      → result.user_id ≡ session.user_id
      → ((g.last_entity_id + 1) % 2 ^ 64 == id) ≡ false
      → let g' =
          (handle_auth ops format_uint draws
            (some authenticate)
            (on_client_disconnect g conn_id).0
            again
            (some (username, password))).0 in
        (e' : Entity F) × (get_entity g'.manager ((g.last_entity_id + 1) % 2 ^ 64) ≡ some e')
        × (e'.position ≡ e.position)
        × (get_entity g'.manager id ≡ some e)
  comes_back g conn_id again username password authenticate result session id e repo here owns there
        keeps real away bare knows good same fresh =
      let g₁ : Game F = record g {
        position_repo = kept_position (some repo) session.user_id (some (on_floor e.position));
        player_entities = delete conn_id g.player_entities;
        sessions = delete conn_id g.sessions;
      } in
      let (e', is_there, at_saved, others) = entered g₁ again username result in
      rw
        (
          leaves g conn_id session id e repo here owns there keeps,
          logs_in g₁ again username password authenticate result away bare knows good,
        )
        (
          e',
          is_there,
          at_saved
              ∙ ap (λ (u : ℕ). spawn_position g₁.position_repo u) same
              ∙ saved_position repo session.user_id e.position real,
          others id fresh ∙ there,
        )
