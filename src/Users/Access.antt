-- ===== src/Users/Access.antt =====
-- What creating an account and logging in do to the accounts.
use mmo_game.Prelude.{
  ℤ, String, Bool, true, false, Option, none, some, lookup, lookup-insert, ◌≡◌, refl, ap, ◌∙◌, ◌⊎◌,
  inl, inr, Bool-cases, if◌then◌else◌, ◌==◌, nat_eq, string_eq,
}
use mmo_game.Users.{
  User, UserRepo, user, rejected, user_exists, user_not_found, found_user, new_user,
  get_user_by_username, create_if, create_user, validate_if, validate_credentials,
}

module _ (to_lower : String → String) where
  seen :
      (repo : UserRepo) (other : String) (u : User) (b : Bool)
      → found_user (if b then some u else lookup (to_lower other) repo.users)
        ≡ (if b then user u else found_user (lookup (to_lower other) repo.users))
  seen repo other u true = refl
  seen repo other u false = refl

  -- CreateUser either changes nothing, because the name is taken in some spelling, or adds a user
  -- of that name, whom every spelling of the name finds, and no other lookup changes.
  pub create_user-cases :
      (now : ℤ) (username other hash : String) (is_admin : Bool) (repo : UserRepo)
      → ((create_user to_lower now username hash is_admin repo ≡ (repo, rejected user_exists))
          × ((u : User) × (get_user_by_username to_lower username repo ≡ user u)))
        ⊎ ((get_user_by_username to_lower username repo ≡ rejected user_not_found)
            × ((u : User) × (u.username ≡ username)
                × (get_user_by_username to_lower other
                      (create_user to_lower now username hash is_admin repo).0
                    ≡ (if to_lower username == to_lower other
                        then user u
                        else get_user_by_username to_lower other repo))))
  unfolding create_user get_user_by_username
  create_user-cases now username other hash is_admin repo =
      by_entry (lookup (to_lower username) repo.users)
    where
      by_entry :
          (o : Option User)
          → ((create_if to_lower o now username hash is_admin repo ≡ (repo, rejected user_exists))
              × ((u : User) × (found_user o ≡ user u)))
            ⊎ ((found_user o ≡ rejected user_not_found)
                × ((u : User) × (u.username ≡ username)
                    × (found_user (
                          lookup
                            (to_lower other)
                            (create_if to_lower o now username hash is_admin repo).0.users)
                        ≡ (if to_lower username == to_lower other
                            then user u
                            else found_user (lookup (to_lower other) repo.users)))))
      by_entry (some u) = unfold create_if in inl (refl, (u, refl))
      by_entry none =
          unfold create_if in
          let u = new_user now repo.next_id username hash is_admin in
          inr (
            refl,
            (
              u,
              refl,
              ap found_user (lookup-insert (to_lower other) (to_lower username) u repo.users)
                  ∙ seen repo other u (to_lower username == to_lower other),
            ),
          )

  -- ValidateCredentials either finds the user and accepts the password, and then changes only that
  -- user's last login, or changes nothing, because there is no such user or the password is wrong.
  pub login-cases :
      (check_password : String → String → Bool) (now : ℤ) (username password other : String)
      (repo : UserRepo)
      → ((u : User) × (get_user_by_username to_lower username repo ≡ user u)
          × (check_password u.password_hash password ≡ true)
          × ((validate_credentials to_lower check_password now username password repo).1
              ≡ user (record u { last_login = now }))
          × (get_user_by_username to_lower other
                (validate_credentials to_lower check_password now username password repo).0
              ≡ (if to_lower username == to_lower other
                  then user (record u { last_login = now })
                  else get_user_by_username to_lower other repo)))
        ⊎ ((validate_credentials to_lower check_password now username password repo
              ≡ (repo, rejected user_not_found))
            × ((get_user_by_username to_lower username repo ≡ rejected user_not_found)
                ⊎ ((u : User) × (get_user_by_username to_lower username repo ≡ user u)
                    × (check_password u.password_hash password ≡ false))))
  unfolding validate_credentials get_user_by_username
  login-cases check_password now username password other repo =
      by_entry (lookup (to_lower username) repo.users)
    where
      by_entry :
          (o : Option User)
          → ((u : User) × (found_user o ≡ user u)
              × (check_password u.password_hash password ≡ true)
              × ((validate_if to_lower check_password o now username password repo).1
                  ≡ user (record u { last_login = now }))
              × (found_user (
                    lookup
                      (to_lower other)
                      (validate_if to_lower check_password o now username password repo).0.users)
                  ≡ (if to_lower username == to_lower other
                      then user (record u { last_login = now })
                      else found_user (lookup (to_lower other) repo.users))))
            ⊎ ((validate_if to_lower check_password o now username password repo
                  ≡ (repo, rejected user_not_found))
                × ((found_user o ≡ rejected user_not_found)
                    ⊎ ((u : User) × (found_user o ≡ user u)
                        × (check_password u.password_hash password ≡ false))))
      by_entry none = unfold validate_if in inr (refl, inl refl)
      by_entry (some u) =
          unfold validate_if in
          elim (Bool-cases (check_password u.password_hash password)) [
            | inr wrong ↦ inr (rw wrong refl, inr (u, refl, wrong))
            | inl right ↦
                let u' = record u { last_login = now } in
                inl (
                  u,
                  refl,
                  right,
                  rw right refl,
                  rw right (
                      ap found_user
                        (lookup-insert (to_lower other) (to_lower username) u' repo.users)
                      ∙ seen repo other u' (to_lower username == to_lower other)),
                )
          ]
