-- ===== src/Regional/Batches.antt =====
-- What becomes of a batch from another region.
use mmo_game.Prelude.{
  ℕ, ℤ, ◌-ℤ◌, ◌<ℤ◌, String, true, false, Option, none, List, [], ◌∷◌, ◌≡◌, ◌≢◌, refl, ◌↔◌, inl, inr,
  All, Bool-cases, ◌==◌, string_eq, arith,
}
use mmo_game.Sync.{Change, passthrough_decompress, zero_time}
use mmo_game.Sync.Compressor.{decompress_zero_time}
use mmo_game.Regional.{
  ChangeData, FloatTests, Node, panicked, has_conflict, five_minutes, apply_remote_change,
  apply_resolved, apply_each, handle_sync_batch,
}

module _ {F : Type 0} (floats : FloatTests F) (unmarshal : List ℕ → Option (ChangeData F)) where
  apply_resolved_returns :
      (node : Node) (change : Change) → apply_resolved floats unmarshal node change ≢ panicked
  unfolding apply_resolved
  apply_resolved_returns node change = ground arith

  -- ApplyRemoteChange panics exactly on the changes that hasConflict accepts.
  pub apply_remote_panics_iff :
      (now : ℤ) (node : Node) (change : Change)
      → (apply_remote_change floats unmarshal now node change ≡ panicked)
        ↔ (has_conflict floats unmarshal now change ≡ true)
  unfolding apply_remote_change
  apply_remote_panics_iff now node change =
      elim (Bool-cases (has_conflict floats unmarshal now change)) [
        | inl conflict ↦ (λ _. conflict, λ _. rw conflict refl)
        | inr none_found ↦ (
          λ h.
              absurd
                (apply_resolved_returns node change (rw (none_found, apply_remote_change) at h)),
          λ h. cc,
        )
      ]

  old_conflict :
      (now : ℤ) (change : Change)
      → five_minutes <ℤ now
      → change.timestamp ≡ zero_time
      → has_conflict floats unmarshal now change ≡ true
  unfolding has_conflict ◌-ℤ◌
  old_conflict now change h e = rw e (ground arith)

  -- A batch of another region that holds a change makes handleSyncBatch panic, at any time later
  -- than five minutes after the zero time.
  pub foreign_batch_panics :
      (now : ℤ) (node : Node) (source : String) (payload : List ℕ)
      → five_minutes <ℤ now
      → (source == node.region_id) ≡ false
      → passthrough_decompress payload ≢ []
      → handle_sync_batch floats unmarshal now node source payload ≡ none
  unfolding handle_sync_batch
  foreign_batch_panics now node source payload h foreign some_change =
      rw foreign
        (first_panics (passthrough_decompress payload) (decompress_zero_time payload) some_change)
    where
      first_panics :
          (changes : List Change)
          → All (λ c. c.timestamp ≡ zero_time) changes
          → changes ≢ []
          → apply_each floats unmarshal now node changes ≡ none
      first_panics [] z ne = absurd (ne refl)
      first_panics (c ∷ cs) z ne =
          let p = (apply_remote_panics_iff now node c).1 (old_conflict now c h z.0) in
          rw (p, apply_each) refl
