-- ===== src/Examples/Saves.antt =====
-- Positions of three users.
use mmo_game.Prelude.{
  ℕ, pos, negsuc, false, none, some, [], ◌∷◌, ◌≡◌, refl, ◌⊎◌, All, lookup, arith, nat_eq,
}
use mmo_game.Vec.{Vec3}
use mmo_game.Positions.{Error, Repo, batch_save}
use mmo_game.Positions.Contract.{IsValid}
use mmo_game.Positions.Batch.{or_else, batch_save-atomic}

abbrev town : Vec3
town = record { x = pos 10; y = negsuc 4; z = pos 1 }

abbrev cave : Vec3
cave = record { x = negsuc 99; y = pos 7; z = pos 0 }

abbrev repo : Repo
repo = (1, town) ∷ (2, cave) ∷ []

repo-IsValid : All IsValid repo
repo-IsValid = (
  (λ h. ground arith, omega arith, omega arith),
  ((λ h. ground arith, omega arith, omega arith), tt),
)

abbrev moves : Repo
moves = (2, town) ∷ (3, cave) ∷ []

batch_save-atomic_example :
    All IsValid (batch_save false moves repo).0
    × (((e : Error) × (batch_save false moves repo ≡ (repo, some e)))
        ⊎ (((batch_save false moves repo).1 ≡ none)
            × ((k : ℕ)
                → lookup k (batch_save false moves repo).0
                  ≡ or_else (lookup k moves) (lookup k repo))))
unfolding lookup
batch_save-atomic_example = batch_save-atomic false moves repo (refl, (refl, tt)) repo-IsValid
