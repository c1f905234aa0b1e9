-- ===== src/Sync/Batch.antt =====
-- What a full buffer keeps.
use mathlib.Core.List.Perm
use mathlib.Core.List.{Perm}
use mmo_game.Prelude.{
  ℕ, zero, suc, ◌+◌, ◌≤◌, ℤ, pos, ◌≤ℤ◌, ◌<ℤ◌, ltb_ℤ, leb_ℤ, List, [], ◌∷◌, ◌++◌, length, set,
  get_elem?, length-set, length-append, ◌≡◌, refl, ap, ◌∙◌, ◌⊎◌, All, true, Bool-cases, inl, inr,
  arith, Option, none, some,
}
use mmo_game.Sync.{Change, BatchManager, scan_low, replace_at, add_change}

abbrev Above : ℤ → List Change → Type 0
Above low = All (λ c. low ≤ℤ c.priority)

Above-mono : (a b : ℤ) (cs : List Change) → a ≤ℤ b → Above b cs → Above a cs
Above-mono a b [] h k = tt
Above-mono a b (c ∷ cs) h k = (omega (arith, k.0), Above-mono a b cs h k.1)

-- What the scan finds: nothing lower, or the place of a lowest one.
scan_cases :
    (cs : List Change) (i : ℕ) (idx : Option ℕ) (low : ℤ)
    → ((scan_low i idx low cs ≡ idx) × Above low cs)
      ⊎ ((k : ℕ) × (c : Change) × (scan_low i idx low cs ≡ some (i + k))
          × (get_elem? cs k ≡ some c)
          × (c.priority <ℤ low)
          × Above c.priority cs)
unfolding scan_low
scan_cases [] i idx low = inl (refl, tt)
scan_cases (c ∷ cs) i idx low = elim (Bool-cases (ltb_ℤ c.priority low)) [
  | inl lower ↦ elim (scan_cases cs (suc i) (some i) c.priority) [
    | inl (e, above) ↦
        inr (0, c, rw lower (e ∙ ap some (omega arith)), refl, ground arith, (omega arith, above))
    | inr (k, d, e, at, below, above) ↦
        inr (suc k, d, rw lower (e ∙ ap some (omega arith)), at, ground arith, (omega arith, above))
  ]
  | inr other ↦ elim (scan_cases cs (suc i) idx low) [
    | inl (e, above) ↦ inl (rw other e, (ground arith, above))
    | inr (k, d, e, at, below, above) ↦
        inr (suc k, d, rw other (e ∙ ap some (omega arith)), at, below, (ground arith, above))
  ]
]

set-perm :
    (cs : List Change) (k : ℕ) (old ch : Change)
    → get_elem? cs k ≡ some old
    → Perm (old ∷ set cs k ch) (ch ∷ cs)
set-perm [] k old ch e = cc
set-perm (c ∷ cs) zero old ch e = let same : c ≡ old = ground arith in rw same (Perm.swap ch old cs)
set-perm (c ∷ cs) (suc k) old ch e =
    Perm.trans (Perm.swap c old (set cs k ch))
      (Perm.trans (Perm.cons c (set-perm cs k old ch e)) (Perm.swap ch c cs))

Above-set :
    (cs : List Change) (k : ℕ) (ch : Change) (low : ℤ)
    → low ≤ℤ ch.priority
    → Above low cs
    → Above low (set cs k ch)
Above-set [] k ch low h a = tt
Above-set (c ∷ cs) zero ch low h a = (h, a.1)
Above-set (c ∷ cs) (suc k) ch low h a = (a.0, Above-set cs k ch low h a.1)

-- Adding a change to a full batch loses exactly one change, out of those buffered and the new one,
-- and no change that stays has a lower priority than the lost one.
pub add_change-full :
    (bm : BatchManager) (ch : Change)
    → bm.capacity ≤ℤ pos (length bm.buf)
    → (lost : Change) × Perm (lost ∷ (add_change bm ch).buf) (ch ∷ bm.buf)
      × All (λ c. lost.priority ≤ℤ c.priority) (add_change bm ch).buf
unfolding add_change replace_at
add_change-full bm ch h =
    let full : leb_ℤ bm.capacity (pos (length bm.buf)) ≡ true = ground arith in
    elim (scan_cases bm.buf 0 none ch.priority) [
      | inl (e, above) ↦ (ch, rw (full, e) (Perm.refl (ch ∷ bm.buf)), rw (full, e) above)
      | inr (k, old, e, at, below, above) ↦
          let e' : scan_low 0 none ch.priority bm.buf ≡ some k = e ∙ ap some (omega arith) in
          (
            old,
            rw (full, e') (set-perm bm.buf k old ch at),
            rw (full, e') (Above-set bm.buf k ch old.priority (omega arith) above),
          )
    ]

replace-length :
    (bm : BatchManager) (ch : Change) (o : Option ℕ)
    → length (replace_at bm ch o).buf ≡ length bm.buf
unfolding replace_at
replace-length bm ch none = refl
replace-length bm ch (some k) = length-set bm.buf k ch

-- A batch within its capacity stays within it when a change is added, and unless it is full the
-- new change goes to its end.
pub add_change_bounded :
    (bm : BatchManager) (ch : Change) (n : ℕ)
    → bm.capacity ≡ pos n
    → length bm.buf ≤ n
    → (length (add_change bm ch).buf ≤ n)
      × ((length bm.buf ≡ n) ⊎ ((add_change bm ch).buf ≡ bm.buf ++ ch ∷ []))
unfolding add_change
add_change_bounded bm ch n c h = elim (Bool-cases (leb_ℤ bm.capacity (pos (length bm.buf)))) [
  | inl full ↦ (
    rw full (rw (replace-length bm ch (scan_low 0 none ch.priority bm.buf)) h),
    inl (ground arith),
  )
  | inr room ↦ (rw room (ground (arith, length-append bm.buf (ch ∷ []), c)), inr (rw room refl))
]
