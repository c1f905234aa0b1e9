-- ===== src/Positions.antt =====
-- Saved player positions: the contract of internal/storage/position_repo.go and its in-memory
-- implementation, memory_position_repo.go. A context is the error that it has been cancelled
-- with, if any. A Go map that is passed in is a list of its entries.
pub mod Contract
pub mod Batch
use mmo_game.Prelude.{
  ℕ, ℤ, pos, ltb_ℤ, Bool, true, false, ◌||◌, Option, none, some, List, [], ◌∷◌, lookup, insert,
  delete, length, if◌then◌else◌, ◌==◌, nat_eq,
}
use mmo_game.Vec.{Vec3}

pub data Error : Type 0 where
  invalid_user invalid_layer not_found cancelled : Error

-- userID -> position
abbrev pub Repo : Type 0
Repo = List (ℕ × Vec3)

abbrev pub new_repo : Repo
new_repo = []

abbrev pub bad_layer : Vec3 → Bool
bad_layer p = ltb_ℤ p.z (pos 0) || ltb_ℤ (pos 255) p.z

abbrev pub validate : ℕ → Vec3 → Option Error
validate user_id p =
    if user_id == 0 then some invalid_user else (if bad_layer p then some invalid_layer else none)

-- The context is looked at after the arguments.
abbrev pub first_error : Option Error → Bool → Option Error
first_error (some e) done = some e
first_error none true = some cancelled
first_error none false = none

save_if : Option Error → ℕ → Vec3 → Repo → Repo × Option Error
save_if (some e) user_id p repo = (repo, some e)
save_if none user_id p repo = (insert user_id p repo, none)

unfoldable pub save : Bool → ℕ → Vec3 → Repo → Repo × Option Error
unfolding save_if
save done user_id p repo = save_if (first_error (validate user_id p) done) user_id p repo

pub data Loaded : Type 0 where
  refused : Error → Loaded
  missing : Loaded
  found : Vec3 → Loaded

abbrev pub loaded : Option Vec3 → Loaded
loaded none = missing
loaded (some p) = found p

abbrev pub check_user : ℕ → Option Error
check_user user_id = if user_id == 0 then some invalid_user else none

load_if : Option Error → ℕ → Repo → Loaded
load_if (some e) user_id repo = refused e
load_if none user_id repo = loaded (lookup user_id repo)

unfoldable pub load : Bool → ℕ → Repo → Loaded
unfolding load_if
load done user_id repo = load_if (first_error (check_user user_id) done) user_id repo

remove_found : Option Vec3 → ℕ → Repo → Repo × Option Error
remove_found none user_id repo = (repo, some not_found)
remove_found (some _) user_id repo = (delete user_id repo, none)

remove_if : Option Error → ℕ → Repo → Repo × Option Error
unfolding remove_found
remove_if (some e) user_id repo = (repo, some e)
remove_if none user_id repo = remove_found (lookup user_id repo) user_id repo

unfoldable pub remove : Bool → ℕ → Repo → Repo × Option Error
unfolding remove_if
remove done user_id repo = remove_if (first_error (check_user user_id) done) user_id repo

-- The two loops of `BatchSave`: all entries are checked, and then all are saved.
abbrev either_error : Option Error → Option Error → Option Error
either_error (some e) rest = some e
either_error none rest = rest

validate_all : Repo → Option Error
validate_all [] = none
validate_all ((user_id, p) ∷ positions) = either_error (validate user_id p) (validate_all positions)

save_all : Repo → Repo → Repo
save_all [] repo = repo
save_all ((user_id, p) ∷ positions) repo = save_all positions (insert user_id p repo)

save_checked : Option Error → Repo → Repo → Repo × Option Error
unfolding save_all
save_checked (some e) positions repo = (repo, some e)
save_checked none positions repo = (save_all positions repo, none)

unfoldable pub batch_save : Bool → Repo → Repo → Repo × Option Error
unfolding save_checked validate_all
batch_save done [] repo = (repo, none)
batch_save done (entry ∷ positions) repo =
    if done
    then (repo, some cancelled)
    else save_checked (validate_all (entry ∷ positions)) (entry ∷ positions) repo

unfoldable pub count : Repo → ℕ
count repo = length repo

unfoldable pub clear : Repo → Repo
clear repo = []
