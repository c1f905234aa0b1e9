-- ===== src/Positions/Contract.antt =====
-- What one call of the repository does, against a map from users to positions.
use mmo_game.Prelude.{
  ℕ, ◌≤ℤ◌, pos, false, Option, none, some, ◌≡◌, ◌≢◌, refl, ap, beq_self, beq_cases, ◌⊎◌, inl, inr,
  All, Option-cases, lookup, insert, delete, lookup-insert, lookup-insert_self, ◌↔◌, lookup-delete,
  All-insert, ◌==◌, nat_eq, arith,
}
use mmo_game.Vec.{Vec3}
use mmo_game.Positions.{
  Error, invalid_user, Repo, validate, first_error, save, load, remove, refused, missing, found,
  check_user, not_found, load_if, loaded, remove_if,
}

-- A saved entry is one that passes the checks.
abbrev pub IsValid : ℕ × Vec3 → Type 0
IsValid (user_id, p) = (user_id ≢ 0) × (pos 0 ≤ℤ p.z) × (p.z ≤ℤ pos 255)

pub validate-IsValid : (user_id : ℕ) (p : Vec3) → validate user_id p ≡ none → IsValid (user_id, p)
validate-IsValid user_id p h = (ground arith, ground arith, ground arith)

abbrev Valid : Repo → Type 0
Valid = All IsValid

check_user_of_validate :
    (user_id : ℕ) (p : Vec3) → validate user_id p ≡ none → check_user user_id ≡ none
check_user_of_validate user_id p h = ground arith

-- A load looks at the repository only through the user's own entry.
load_of_lookup :
    (user_id : ℕ) (repo repo' : Repo)
    → lookup user_id repo ≡ lookup user_id repo'
    → load false user_id repo ≡ load false user_id repo'
unfolding load
load_of_lookup user_id repo repo' h = by_check (first_error (check_user user_id) false)
  where
    by_check : (o : Option Error) → load_if o user_id repo ≡ load_if o user_id repo'
    by_check none = ap loaded h
    by_check (some e) = refl

lookup-insert_ne :
    (user_id other : ℕ) (p : Vec3) (repo : Repo)
    → (user_id == other) ≡ false
    → lookup other (insert user_id p repo) ≡ lookup other repo
lookup-insert_ne user_id other p repo ne = ground (arith, lookup-insert other user_id p repo)

lookup-delete_ne :
    (user_id other : ℕ) (repo : Repo)
    → (user_id == other) ≡ false
    → lookup other (delete user_id repo) ≡ lookup other repo
lookup-delete_ne user_id other repo ne = ground (arith, lookup-delete other user_id repo)

-- In a repository of valid entries and with a context that is not cancelled, Save either fails and
-- changes nothing, or a Load finds the saved position and a Load for any other user answers as
-- before; the entries stay valid.
pub load-save :
    (user_id other : ℕ) (p : Vec3) (repo : Repo)
    → All IsValid repo
    → All IsValid (save false user_id p repo).0
      × (((load false user_id (save false user_id p repo).0 ≡ found p)
            × ((user_id ≡ other)
                ⊎ (load false other (save false user_id p repo).0 ≡ load false other repo)))
          ⊎ ((e : Error) × (save false user_id p repo ≡ (repo, some e))))
unfolding save load
load-save user_id other p repo v = elim (Option-cases (validate user_id p)) [
  | inr (e, h) ↦
      let failed : save false user_id p repo ≡ (repo, some e) = rw (h, save) refl in
      (rw failed v, inr (e, failed))
  | inl h ↦
      let done : save false user_id p repo ≡ (insert user_id p repo, none) = rw (h, save) refl in
      (
        rw done (All-insert IsValid user_id p repo (validate-IsValid user_id p h) v),
        inl (
          rw (done, check_user_of_validate user_id p h, lookup-insert_self user_id p repo) refl,
          elim (beq_cases nat_eq user_id other) [
            | inl (t, same) ↦ inl same
            | inr ne ↦ inr (
                rw done (
                  load_of_lookup other (insert user_id p repo) repo
                    (lookup-insert_ne user_id other p repo ne)))
          ],
        ),
      )
]

erased : (user_id : ℕ) (repo : Repo) → lookup user_id (delete user_id repo) ≡ none
erased user_id repo = rw (lookup-delete user_id user_id repo, beq_self nat_eq user_id) refl

-- With a context that is not cancelled, Delete reports a missing entry exactly when Load finds
-- none; it either fails and changes nothing, or Load finds none afterwards, and answers as before
-- for any other user.
pub load-remove :
    (user_id other : ℕ) (repo : Repo)
    → ((remove false user_id repo).1 ≡ some not_found ↔ load false user_id repo ≡ missing)
      × (((load false user_id (remove false user_id repo).0 ≡ missing)
            × ((user_id ≡ other)
                ⊎ (load false other (remove false user_id repo).0 ≡ load false other repo)))
          ⊎ ((e : Error) × (remove false user_id repo ≡ (repo, some e))))
unfolding load remove
load-remove user_id other repo = elim (Option-cases (check_user user_id)) [
  | inr (e, h) ↦
      let failed : remove false user_id repo ≡ (repo, some invalid_user) = ground arith in
      let refused_load : load false user_id repo ≡ refused invalid_user = ground arith in
      ((λ q. cc, λ q. cc), inr (invalid_user, failed))
  | inl h ↦ elim (Option-cases (lookup user_id repo)) [
    | inl absent ↦
        let failed : remove false user_id repo ≡ (repo, some not_found) =
          rw (h, remove) (rw (absent, remove_if) refl) in
        let gone : load false user_id repo ≡ missing = rw (h, load) (ap loaded absent) in
        ((λ _. gone, λ _. rw failed refl), inr (not_found, failed))
    | inr (p, present) ↦
        let done : remove false user_id repo ≡ (delete user_id repo, none) =
          rw (h, remove) (rw (present, remove_if) refl) in
        let there : load false user_id repo ≡ found p = rw (h, load) (ap loaded present) in
        (
          (λ q. cc, λ q. cc),
          inl (
            rw done (rw (h, load) (ap loaded (erased user_id repo))),
            elim (beq_cases nat_eq user_id other) [
              | inl (t, same) ↦ inl same
              | inr ne ↦ inr (
                  rw done (
                    load_of_lookup other (delete user_id repo) repo
                      (lookup-delete_ne user_id other repo ne)))
            ],
          ),
        )
  ]
]
