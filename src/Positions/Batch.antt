-- ===== src/Positions/Batch.antt =====
-- A batch is saved whole or not at all.
use mmo_game.Prelude.{
  ℕ, Bool, true, false, Option, none, some, [], ◌∷◌, ◌≡◌, refl, ◌⊎◌, inl, inr, All, Option-cases,
  lookup, insert, lookup-insert, All-insert, if◌then◌else◌, ◌==◌, nat_eq, beq_cases,
}
use mmo_game.Vec.{Vec3}
use mmo_game.Positions.{Error, cancelled, Repo, validate, validate_all, save_all, batch_save}
use mmo_game.Positions.Contract.{IsValid, validate-IsValid}

-- The entry of the batch, or else the one that was there.
abbrev pub or_else : Option Vec3 → Option Vec3 → Option Vec3
or_else (some p) old = some p
or_else none old = old

-- A Go map has each key once.
abbrev pub Distinct : Repo → Type 0
Distinct [] = Unit {0}
Distinct ((user_id, p) ∷ positions) = (lookup user_id positions ≡ none) × Distinct positions

lookup-cons :
    (user_id k : ℕ) (p : Vec3) (m : Repo)
    → lookup k ((user_id, p) ∷ m) ≡ (if user_id == k then some p else lookup k m)
unfolding lookup
lookup-cons user_id k p m = refl

lookup-save_all :
    (positions repo : Repo) (k : ℕ)
    → Distinct positions
    → lookup k (save_all positions repo) ≡ or_else (lookup k positions) (lookup k repo)
unfolding save_all
lookup-save_all [] repo k d = unfold lookup in refl
lookup-save_all ((user_id, p) ∷ positions) repo k d =
    rw
      (
        lookup-save_all positions (insert user_id p repo) k d.1,
        lookup-insert k user_id p repo,
        lookup-cons user_id k p positions,
      )
      (elim (beq_cases nat_eq user_id k) [
        | inl (t, same) ↦ rw t (rw (rw same at d.0) refl)
        | inr t ↦ rw t refl
      ])

validate_all-IsValid : (positions : Repo) → validate_all positions ≡ none → All IsValid positions
unfolding validate_all
validate_all-IsValid [] h = tt
validate_all-IsValid ((user_id, p) ∷ positions) h = elim (Option-cases (validate user_id p)) [
  | inl good ↦ (
    validate-IsValid user_id p good,
    validate_all-IsValid positions (rw (good, validate_all) at h),
  )
  | inr (e, bad) ↦ cc (rw (bad, validate_all) at h)
]

save_all-IsValid :
    (positions repo : Repo)
    → All IsValid positions
    → All IsValid repo
    → All IsValid (save_all positions repo)
unfolding save_all
save_all-IsValid [] repo g v = v
save_all-IsValid ((user_id, p) ∷ positions) repo g v =
    save_all-IsValid positions (insert user_id p repo) g.1 (All-insert IsValid user_id p repo g.0 v)

-- BatchSave either fails and changes nothing, or succeeds and overwrites exactly its own users'
-- positions; every stored position stays valid. The batch names each user once.
pub batch_save-atomic :
    (done : Bool) (positions repo : Repo)
    → Distinct positions
    → All IsValid repo
    → All IsValid (batch_save done positions repo).0
      × (((e : Error) × (batch_save done positions repo ≡ (repo, some e)))
          ⊎ (((batch_save done positions repo).1 ≡ none)
              × ((k : ℕ)
                  → lookup k (batch_save done positions repo).0
                    ≡ or_else (lookup k positions) (lookup k repo))))
unfolding batch_save
batch_save-atomic done [] repo d v = (v, inr (refl, λ k. unfold lookup in refl))
batch_save-atomic true (x ∷ xs) repo d v = (v, inl (cancelled, refl))
batch_save-atomic false (x ∷ xs) repo d v = elim (Option-cases (validate_all (x ∷ xs))) [
  | inr (e, bad) ↦
      let failed : batch_save false (x ∷ xs) repo ≡ (repo, some e) = rw (bad, batch_save) refl in
      (rw failed v, inl (e, failed))
  | inl good ↦
      let saved : batch_save false (x ∷ xs) repo ≡ (save_all (x ∷ xs) repo, none) =
        rw (good, batch_save) refl in
      (
        rw saved (save_all-IsValid (x ∷ xs) repo (validate_all-IsValid (x ∷ xs) good) v),
        inr (rw saved refl, λ k. rw saved (lookup-save_all (x ∷ xs) repo k d)),
      )
]
