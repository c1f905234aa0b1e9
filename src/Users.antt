-- ===== src/Users.antt =====
-- Accounts: internal/auth/user.go and the in-memory repository, user_repo_memory.go. Lower case,
-- bcrypt's hash and bcrypt's comparison are libraries and are parameters. The pointers to users
-- are read only through the repository. `now` is the clock at the call.
pub mod Ids
pub mod Accounts
pub mod Access
pub mod Authenticator
use mmo_game.Prelude.{
  ℕ, ◌+◌, ◌%◌, ◌^◌, ℤ, String, Bool, true, false, Option, none, some, List, [], ◌∷◌, lookup, insert,
  if◌then◌else◌, ◌==◌, nat_eq, string_eq,
}

pub record User : Type 0 where
  pub id : ℕ
  pub username : String
  pub password_hash : String
  pub created_at : ℤ
  pub last_login : ℤ
  pub is_admin : Bool
  pub role : String

unfoldable pub get_role : User → String
get_role u = if u.role == "" then (if u.is_admin then "admin" else "user") else u.role

-- The key is the name in lower case.
pub record UserRepo : Type 0 where
  pub users : List (String × User)
  pub next_id : ℕ

pub data AuthError : Type 0 where
  user_not_found user_exists : AuthError

pub data Answer : Type 0 where
  rejected : AuthError → Answer
  user : User → Answer

abbrev pub found_user : Option User → Answer
found_user none = rejected user_not_found
found_user (some u) = user u

abbrev pub empty_repo : UserRepo
empty_repo = record { users = []; next_id = 1 }

-- The loop over the users.
pub find_id : ℕ → List (String × User) → Option User
find_id id [] = none
find_id id ((key, u) ∷ users) = let rest = find_id id users in if u.id == id then some u else rest

unfoldable pub get_user_by_id : ℕ → UserRepo → Answer
unfolding find_id
get_user_by_id id repo = found_user (find_id id repo.users)

abbrev pub new_user : ℤ → ℕ → String → String → Bool → User
new_user now id username password_hash is_admin = record {
  id = id;
  username = username;
  password_hash = password_hash;
  created_at = now;
  last_login = now;
  is_admin = is_admin;
  role = "";
}

module _ (to_lower : String → String) where
  unfoldable pub get_user_by_username : String → UserRepo → Answer
  get_user_by_username username repo = found_user (lookup (to_lower username) repo.users)

  create_if : Option User → ℤ → String → String → Bool → UserRepo → UserRepo × Answer
  create_if (some _) now username password_hash is_admin repo = (repo, rejected user_exists)
  create_if none now username password_hash is_admin repo =
      let u = new_user now repo.next_id username password_hash is_admin in
      (
        record {
          users = insert (to_lower username) u repo.users;
          next_id = (repo.next_id + 1) % 2 ^ 64;
        },
        user u,
      )

  unfoldable pub create_user : ℤ → String → String → Bool → UserRepo → UserRepo × Answer
  unfolding create_if
  create_user now username password_hash is_admin repo =
      create_if (lookup (to_lower username) repo.users) now username password_hash is_admin repo

  -- The first administrator; the error is the hash's.
  unfoldable pub new_memory_user_repo : (String → Option String) → ℤ → Option UserRepo
  unfolding create_user
  new_memory_user_repo hash_password now = elim (hash_password "ChangeMe123!") [
    | none ↦ none
    | some hash ↦ some (create_user now "admin" hash true empty_repo).0
  ]

  module _ (check_password : String → String → Bool) where
    validate_if : Option User → ℤ → String → String → UserRepo → UserRepo × Answer
    validate_if none now username password repo = (repo, rejected user_not_found)
    validate_if (some u) now username password repo =
        let u' = record u { last_login = now } in
        if check_password u.password_hash password
        then (record repo { users = insert (to_lower username) u' repo.users }, user u')
        else (repo, rejected user_not_found)

    unfoldable pub validate_credentials : ℤ → String → String → UserRepo → UserRepo × Answer
    unfolding validate_if
    validate_credentials now username password repo =
        validate_if (lookup (to_lower username) repo.users) now username password repo
