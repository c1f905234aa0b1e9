-- ===== src/Users/Accounts.antt =====
-- What holds of every repository of accounts that calls can lead to.
use mmo_game.Prelude.{
  ℕ, ◌+◌, ◌%◌, ◌^◌, ◌≤◌, ◌<◌, ℤ, String, Bool, Option, none, some, List, [], ◌∷◌, length, All,
  lookup, All-insert, All-lookup, ◌≡◌, ◌≢◌, refl, ap, ◌∙◌, inl, inr, Bool-cases, nat_eq, string_eq,
  arith,
}
use mmo_game.Users.{
  User, UserRepo, user, found_user, empty_repo, find_id, get_user_by_id, get_user_by_username,
  create_if, create_user, validate_if, validate_credentials,
}
use mmo_game.Users.Ids.{Distinct, Distinct-insert_new, Distinct-insert_same, find_id-Distinct}

pub data Call : Type 0 where
  creates : ℤ → String → String → Bool → Call
  logs_in : ℤ → String → String → Call

module _ (to_lower : String → String) (check_password : String → String → Bool) where
  unfoldable pub call : UserRepo → Call → UserRepo
  call repo (creates now username hash is_admin) =
      (create_user to_lower now username hash is_admin repo).0
  call repo (logs_in now username password) =
      (validate_credentials to_lower check_password now username password repo).0

  unfoldable pub calls : UserRepo → List Call → UserRepo
  calls repo [] = repo
  calls repo (c ∷ cs) = calls (call repo c) cs

  -- An entry stands under its user's name, with an id that was given out.
  abbrev pub IsEntry : ℕ → String × User → Type 0
  IsEntry n e = (to_lower e.1.username ≡ e.0) × (1 ≤ e.1.id) × (e.1.id < n)

  pub record IsAccounts (repo : UserRepo) : Type 0 where
    pub entries : All (IsEntry repo.next_id) repo.users
    pub ids : Distinct repo.users

  entries_mono :
      (a b : ℕ) (l : List (String × User)) → a ≤ b → All (IsEntry a) l → All (IsEntry b) l
  entries_mono a b [] h k = tt
  entries_mono a b (e ∷ l) h k = ((k.0.0, k.0.1, omega (arith, k.0.2)), entries_mono a b l h k.1)

  below_next : (n : ℕ) (l : List (String × User)) → All (IsEntry n) l → All (λ e. e.1.id ≢ n) l
  below_next n [] h = tt
  below_next n (e ∷ l) h = (λ q. absurd (omega (arith, h.0.2, q)), below_next n l h.1)

  create-IsAccounts :
      (now : ℤ) (username hash : String) (is_admin : Bool) (repo : UserRepo)
      → repo.next_id + 1 < 2 ^ 64
      → 1 ≤ repo.next_id
      → IsAccounts repo
      → IsAccounts (create_user to_lower now username hash is_admin repo).0
  unfolding create_user
  create-IsAccounts now username hash is_admin repo b p v =
      created (lookup (to_lower username) repo.users)
    where
      created :
          (o : Option User) → IsAccounts (create_if to_lower o now username hash is_admin repo).0
      created (some _) = unfold create_if in v
      created none =
          unfold create_if in
          record {
            entries =
                All-insert (IsEntry ((repo.next_id + 1) % 2 ^ 64)) (to_lower username) _ repo.users
                  (refl, p, omega arith)
                  (entries_mono repo.next_id ((repo.next_id + 1) % 2 ^ 64) repo.users (omega arith)
                    v.entries);
            ids =
                Distinct-insert_new (to_lower username) _ repo.users
                  (below_next repo.next_id repo.users v.entries) v.ids;
          }

  login-IsAccounts :
      (now : ℤ) (username password : String) (repo : UserRepo)
      → IsAccounts repo
      → IsAccounts (validate_credentials to_lower check_password now username password repo).0
  unfolding validate_credentials
  login-IsAccounts now username password repo v =
      checked (lookup (to_lower username) repo.users) refl
    where
      checked :
          (o : Option User)
          → lookup (to_lower username) repo.users ≡ o
          → IsAccounts (validate_if to_lower check_password o now username password repo).0
      checked none e = unfold validate_if in v
      checked (some u) e =
          unfold validate_if in
          elim (Bool-cases (check_password u.password_hash password)) [
            | inr wrong ↦ rw wrong v
            | inl right ↦ rw right (record {
              entries =
                  All-insert (IsEntry repo.next_id) (to_lower username)
                    (record u { last_login = now }) repo.users
                    (All-lookup (IsEntry repo.next_id) (to_lower username) u repo.users v.entries e)
                    v.entries;
              ids =
                  Distinct-insert_same (to_lower username) (record u { last_login = now }) u
                    repo.users e refl v.ids;
            })
          ]

  call-IsAccounts :
      (repo : UserRepo) (c : Call)
      → repo.next_id + 1 < 2 ^ 64
      → 1 ≤ repo.next_id
      → IsAccounts repo
      → IsAccounts (call repo c)
  unfolding call
  call-IsAccounts repo (creates now username hash is_admin) b p v =
      create-IsAccounts now username hash is_admin repo b p v
  call-IsAccounts repo (logs_in now username password) b p v =
      login-IsAccounts now username password repo v

  -- The next id moves by one at most, and never back.
  next_id-call :
      (repo : UserRepo) (c : Call)
      → repo.next_id + 1 < 2 ^ 64
      → (repo.next_id ≤ (call repo c).next_id) × ((call repo c).next_id ≤ repo.next_id + 1)
  unfolding call create_user validate_credentials
  next_id-call repo (creates now username hash is_admin) b =
      created (lookup (to_lower username) repo.users)
    where
      created :
          (o : Option User)
          → (repo.next_id ≤ (create_if to_lower o now username hash is_admin repo).0.next_id)
            × ((create_if to_lower o now username hash is_admin repo).0.next_id ≤ repo.next_id + 1)
      created (some _) = unfold create_if in omega arith
      created none = unfold create_if in omega arith
  next_id-call repo (logs_in now username password) b =
      checked (lookup (to_lower username) repo.users)
    where
      checked :
          (o : Option User)
          → (repo.next_id
              ≤ (validate_if to_lower check_password o now username password repo).0.next_id)
            × ((validate_if to_lower check_password o now username password repo).0.next_id
                ≤ repo.next_id + 1)
      checked none = unfold validate_if in omega arith
      checked (some u) =
          unfold validate_if in
          elim (Bool-cases (check_password u.password_hash password)) [
            | inl right ↦ rw right (omega arith)
            | inr wrong ↦ rw wrong (omega arith)
          ]

  calls_from-IsAccounts :
      (cs : List Call) (repo : UserRepo)
      → repo.next_id + length cs < 2 ^ 64
      → 1 ≤ repo.next_id
      → IsAccounts repo
      → IsAccounts (calls repo cs)
  unfolding calls
  calls_from-IsAccounts [] repo b p v = v
  calls_from-IsAccounts (c ∷ cs) repo b p v =
      let moved = next_id-call repo c (omega arith) in
      calls_from-IsAccounts cs (call repo c) (omega (arith, moved)) (omega (arith, moved))
        (call-IsAccounts repo c (omega arith) p v)

  -- Fewer than 2^64 - 1 calls of CreateUser and ValidateCredentials on an empty repository leave
  -- every user under the lower case of its name, with an id from 1 to below the next one, and no
  -- two with the same id.
  pub calls-IsAccounts :
      (cs : List Call) → 1 + length cs < 2 ^ 64 → IsAccounts (calls empty_repo cs)
  calls-IsAccounts cs b =
      calls_from-IsAccounts cs empty_repo b (omega arith) (record { entries = tt; ids = tt })

  -- After fewer than 2^64 - 1 calls of CreateUser and ValidateCredentials on an empty repository,
  -- GetUserByID finds every user that GetUserByUsername finds, by the user's id.
  pub find_by_id :
      (cs : List Call) (username : String) (u : User)
      → 1 + length cs < 2 ^ 64
      → get_user_by_username to_lower username (calls empty_repo cs) ≡ user u
      → get_user_by_id u.id (calls empty_repo cs) ≡ user u
  unfolding get_user_by_username get_user_by_id
  find_by_id cs username u b h =
      by_entry (lookup (to_lower username) (calls empty_repo cs).users) refl h
    where
      by_entry :
          (o : Option User)
          → lookup (to_lower username) (calls empty_repo cs).users ≡ o
          → found_user o ≡ user u
          → found_user (find_id u.id (calls empty_repo cs).users) ≡ user u
      by_entry none e f = cc
      by_entry (some w) e f =
          let same : w ≡ u = ground arith in
          ap found_user (
            find_id-Distinct (to_lower username) u (calls empty_repo cs).users
              (calls-IsAccounts cs b).ids (e ∙ ap some same))
