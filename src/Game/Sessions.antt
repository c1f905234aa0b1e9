-- ===== src/Game/Sessions.antt =====
-- Sessions: handleAuth, OnClientDisconnect, IsSessionValid and autoSavePositions of
-- internal/network/game_handler_pb.go. The position repository, if there is one, is the one in
-- memory. handleAuth holds the handler's mutex, and nothing that it calls takes it.
use mmo_game.Prelude.{
  ℕ, ◌+◌, ◌%◌, ◌^◌, String, Bool, true, false, not, ◌||◌, Option, none, some, List, [], ◌∷◌, ◌++◌,
  lookup, insert, delete, length, if◌then◌else◌, ◌==◌, nat_eq, string_eq,
}
use mmo_game.Vec.{Vec2, Vec3, to_vec2}
use mmo_game.Vec.Float.{FloatOps}
use mmo_game.Positions.{Repo, Loaded, refused, missing, found, load, save, batch_save}
use mmo_game.Users.Authenticator.{AuthResult}
use mmo_game.Entity.{Draws, player_type}
use mmo_game.Game.{
  Game, Session, Sent, to_client, to_all, auth_response, world_data, entity_despawn,
  spawn_entity_with_id, despawn_entity, get_entity_position, default_spawn_position,
}

abbrev pub has_session : Option Session → Bool
has_session none = false
has_session (some session) = true

unfoldable pub is_session_valid : {F : Type 0} → Game F → String → Bool
is_session_valid g conn_id = has_session (lookup conn_id g.sessions)

has_role : String → List String → Bool
has_role name [] = false
has_role name (role ∷ roles) = role == name || has_role name roles

unfoldable pub loaded_position : Loaded → Vec2
loaded_position (refused e) = to_vec2 default_spawn_position
loaded_position missing = to_vec2 default_spawn_position
loaded_position (found p) = to_vec2 p

-- Where a user last stood.
unfoldable pub spawn_position : Option Repo → ℕ → Vec2
unfolding loaded_position load
spawn_position none user_id = to_vec2 default_spawn_position
spawn_position (some repo) user_id = loaded_position (load false user_id repo)

abbrev pub given : Option String → String
given none = ""
given (some password) = password

module _ {F : Type 0} (ops : FloatOps F) (format_uint : ℕ → String) (draws : Draws F) where
  -- A new entity and a new session.
  unfoldable pub enter : Game F → String → String → AuthResult → Game F × List Sent
  unfolding spawn_entity_with_id spawn_position has_role
  enter g conn_id username result =
      let id = (g.last_entity_id + 1) % 2 ^ 64 in
      let session : Session = record {
        user_id = result.user_id;
        entity_id = id;
        username = username;
        token = result.token;
        is_admin = has_role "admin" result.roles;
      } in
      let entered =
        spawn_entity_with_id ops format_uint draws
          (record g {
            last_entity_id = id;
            player_entities = insert conn_id id g.player_entities;
            sessions = insert conn_id session g.sessions;
          })
          player_type (spawn_position g.position_repo result.user_id) id in
      (
        entered.0,
        entered.1
            ++ to_client conn_id (auth_response true result.message id)
              ∷ to_client conn_id (world_data id)
              ∷ [],
      )

  unfoldable pub enter_if : Option ℕ → Game F → String → String → AuthResult → Game F × List Sent
  unfolding enter
  enter_if none g conn_id username result = enter g conn_id username result
  enter_if (some id) g conn_id username result = (
    g,
    to_client conn_id (auth_response true "Already authenticated" id)
        ∷ to_client conn_id (world_data id)
        ∷ [],
  )

  abbrev pub refusal : Game F → String → String → Game F × List Sent
  refusal g conn_id message = (g, to_client conn_id (auth_response false message 0) ∷ [])

  unfoldable pub answered : Option AuthResult → Game F → String → String → Game F × List Sent
  unfolding enter_if
  answered none g conn_id username = refusal g conn_id "Authentication service error"
  answered (some result) g conn_id username =
      if not result.success
      then refusal g conn_id result.message
      else enter_if (lookup conn_id g.player_entities) g conn_id username result

  unfoldable pub decoded :
      (String → String → Option AuthResult)
      → Game F
      → String
      → Option (String × Option String)
      → Game F × List Sent
  unfolding answered is_session_valid
  decoded authenticate g conn_id none = refusal g conn_id "Invalid request format"
  decoded authenticate g conn_id (some (username, password)) =
      if is_session_valid g conn_id
      then (g, [])
      else answered (authenticate username (given password)) g conn_id username

  -- The authenticator may be missing; the request is a name and a password, if it can be decoded.
  unfoldable pub handle_auth :
      Option (String → String → Option AuthResult)
      → Game F
      → String
      → Option (String × Option String)
      → Game F × List Sent
  unfolding decoded
  handle_auth none g conn_id request = refusal g conn_id "Server authentication error"
  handle_auth (some authenticate) g conn_id request = decoded authenticate g conn_id request

abbrev pub kept_position : Option Repo → ℕ → Option Vec3 → Option Repo
unfolding save
kept_position (some repo) user_id (some p) = some (save false user_id p repo).0
kept_position repo user_id _ = repo

noted : Option Vec3 → ℕ → Repo → Repo
noted none user_id positions = positions
noted (some p) user_id positions = insert user_id p positions

saved_all : Option Repo → Repo → Option Repo
unfolding batch_save
saved_all none positions = none
saved_all (some repo) positions = some (batch_save false positions repo).0

module _ {F : Type 0} where
  unfoldable pub leave : Option Session → Option ℕ → Game F → String → Game F × List Sent
  unfolding despawn_entity get_entity_position
  leave (some session) (some id) g conn_id = (
    record (despawn_entity g id).0 {
      position_repo = kept_position g.position_repo session.user_id (get_entity_position g id);
      player_entities = delete conn_id g.player_entities;
      sessions = delete conn_id g.sessions;
    },
    (despawn_entity g id).1 ++ to_all (entity_despawn id "disconnected") ∷ [],
  )
  leave _ _ g conn_id = (g, [])

  unfoldable pub on_client_disconnect : Game F → String → Game F × List Sent
  unfolding leave
  on_client_disconnect g conn_id =
      leave (lookup conn_id g.sessions) (lookup conn_id g.player_entities) g conn_id

  at_entity : Option ℕ → Game F → ℕ → Repo → Repo
  unfolding noted get_entity_position
  at_entity none g user_id positions = positions
  at_entity (some id) g user_id positions = noted (get_entity_position g id) user_id positions

  -- The loop over the sessions.
  collect : List (String × Session) → Game F → Repo → Repo
  unfolding at_entity
  collect [] g positions = positions
  collect ((conn_id, session) ∷ rest) g positions =
      collect rest g (at_entity (lookup conn_id g.player_entities) g session.user_id positions)

  -- `now` is the clock in seconds.
  unfoldable pub auto_save_positions : ℕ → Game F → Game F
  unfolding collect saved_all
  auto_save_positions now g =
      if length g.sessions == 0 || length g.player_entities == 0 || not (now % 30 == 0)
      then g
      else record g { position_repo = saved_all g.position_repo (collect g.sessions g []) }
