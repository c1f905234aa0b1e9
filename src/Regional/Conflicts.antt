-- ===== src/Regional/Conflicts.antt =====
-- The last write wins.
use mmo_game.Prelude.{
  ◌≤ℤ◌, ltb_ℤ, false, some, ◌≡◌, ◌≢◌, refl, ◌⊎◌, inl, inr, Bool-cases, arith, eq_of_parts,
}
use mmo_game.Sync.{Change}
use mmo_game.Regional.{Conflict, resolve}

abbrev pub between : Change → Change → Conflict
between local remote = record { local_change = some local; remote_change = some remote }

-- Of two changes the resolver picks one, and that is not older than either.
pub resolve_latest :
    (local remote : Change)
    → (winner : Change) × (resolve (between local remote) ≡ some winner)
      × ((winner ≡ local) ⊎ (winner ≡ remote))
      × (local.timestamp ≤ℤ winner.timestamp)
      × (remote.timestamp ≤ℤ winner.timestamp)
unfolding resolve
resolve_latest local remote = elim (Bool-cases (ltb_ℤ local.timestamp remote.timestamp)) [
  | inl newer ↦ (remote, rw newer refl, inr refl, ground arith, ground arith)
  | inr older ↦ (local, rw older refl, inl refl, ground arith, ground arith)
]

-- Two regions that resolve the same pair of changes, each with its own as the local one, agree if
-- the two differ in time.
pub resolve_converges :
    (here there : Change)
    → here.timestamp ≢ there.timestamp
    → resolve (between here there) ≡ resolve (between there here)
unfolding resolve
resolve_converges here there differ = elim (Bool-cases (ltb_ℤ here.timestamp there.timestamp)) [
  | inl before ↦
      let after : ltb_ℤ there.timestamp here.timestamp ≡ false = ground arith in
      rw (before, after) refl
  | inr not_before ↦ elim (Bool-cases (ltb_ℤ there.timestamp here.timestamp)) [
    | inl after ↦ rw (not_before, after) refl
    | inr neither ↦ absurd (differ (eq_of_parts here.timestamp there.timestamp (ground arith)))
  ]
]
