-- ===== src/Users/Authenticator.antt =====
-- Authentication of a client: AuthenticateUser of internal/auth/game_authenticator.go. The
-- comparison with bcrypt's hash and the signing of a token are libraries and are parameters.
use mmo_game.Prelude.{
  ℕ, String, Bool, true, false, Option, none, some, List, [], ◌∷◌, if◌then◌else◌,
}
use mmo_game.Users.{User, UserRepo, Answer, rejected, user, get_user_by_username, get_role}

pub record AuthResult : Type 0 where
  pub success : Bool
  pub user_id : ℕ
  pub username : String
  pub token : String
  pub message : String
  pub roles : List String

abbrev failed : String → AuthResult
failed message = record {
  success = false;
  user_id = 0;
  username = "";
  token = "";
  message = message;
  roles = [];
}

module _ (to_lower : String → String) (check_password : String → String → Bool)
    (generate_jwt : User → Option String) where
  -- `none` is a result that comes with an error.
  tokened : User → Option String → Option AuthResult
  unfolding get_role
  tokened u none = none
  tokened u (some token) = some (record {
    success = true;
    user_id = u.id;
    username = u.username;
    token = token;
    message = "Authentication successful";
    roles = get_role u ∷ [];
  })

  checked : Answer → String → Option AuthResult
  unfolding tokened
  checked (rejected e) password = some (failed "User not found")
  checked (user u) password =
      if check_password u.password_hash password
      then tokened u (generate_jwt u)
      else some (failed "Invalid credentials")

  unfoldable pub authenticate_user : UserRepo → String → String → Option AuthResult
  unfolding checked get_user_by_username
  authenticate_user repo username password =
      checked (get_user_by_username to_lower username repo) password
