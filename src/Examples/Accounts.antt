-- ===== src/Examples/Accounts.antt =====
-- An administrator and a player.
use mmo_game.Prelude.{
  pos, String, Bool, true, false, List, [], ◌∷◌, ◌≡◌, ◌⊎◌, if◌then◌else◌, ◌==◌, string_eq, nat_eq,
  arith,
}
use mmo_game.Users.{
  User, UserRepo, user, rejected, user_not_found, empty_repo, new_user, get_user_by_username,
  validate_credentials,
}
use mmo_game.Users.Accounts.{Call, creates, logs_in, calls, IsAccounts, calls-IsAccounts}
use mmo_game.Users.Access.{login-cases}

-- Lower case of the two names in use.
abbrev to_lower : String → String
to_lower name = if name == "Admin" then "admin" else name

abbrev check_password : String → String → Bool
check_password hash password = hash == password

abbrev history : List Call
history =
    creates (pos 1) "Admin" "x" true
    ∷ creates (pos 2) "bob" "y" false
    ∷ logs_in (pos 9) "admin" "x"
    ∷ []

abbrev repo : UserRepo
repo = calls to_lower check_password empty_repo history

calls-IsAccounts_example : IsAccounts to_lower check_password repo
calls-IsAccounts_example = calls-IsAccounts to_lower check_password history (omega arith)

abbrev admin : User
admin = record (new_user (pos 1) 1 "Admin" "x" true) { last_login = pos 9 }

login-cases_example :
    ((u : User) × (get_user_by_username to_lower "bob" repo ≡ user u)
      × (check_password u.password_hash "y" ≡ true)
      × ((validate_credentials to_lower check_password (pos 5) "bob" "y" repo).1
          ≡ user (record u { last_login = pos 5 }))
      × (get_user_by_username to_lower "Admin"
            (validate_credentials to_lower check_password (pos 5) "bob" "y" repo).0
          ≡ (if to_lower "bob" == to_lower "Admin"
              then user (record u { last_login = pos 5 })
              else get_user_by_username to_lower "Admin" repo)))
    ⊎ ((validate_credentials to_lower check_password (pos 5) "bob" "y" repo
          ≡ (repo, rejected user_not_found))
        × ((get_user_by_username to_lower "bob" repo ≡ rejected user_not_found)
            ⊎ ((u : User) × (get_user_by_username to_lower "bob" repo ≡ user u)
                × (check_password u.password_hash "y" ≡ false))))
login-cases_example = login-cases to_lower check_password (pos 5) "bob" "y" "Admin" repo
