-- ===== src/Delta/Versions/Delivery.antt =====
-- What a flush leaves for the next one.
use mmo_game.Prelude.{
  ℕ, ◌≤◌, ℤ, leb, String, true, List, [], ◌∷◌, ◌≡◌, refl, inl, inr, All, Bool-cases, arith,
}
use mmo_game.Vec.{Vec2}
use mmo_game.Delta.{
  Manager, ChunkDelta, SubscriberInfo, flush_pending_changes, flush_deltas, send_all, send_deltas,
  cleanup_old_deltas, center_chunk, is_chunk_in_radius,
}
use mmo_game.Delta.Versions.{InStep, cleanup-UpTo, send_all-marked}

module _ {F : Type 0} where
  -- Nothing is due to a subscriber whose mark no version has passed.
  send_deltas-nil :
      (conn_id : String) (s : SubscriberInfo) (n : ℕ) (deltas : List (Vec2 × ChunkDelta F))
      → n ≤ s.last_sent
      → All (λ e. e.1.version ≤ n) deltas
      → send_deltas conn_id s deltas ≡ []
  unfolding send_deltas
  send_deltas-nil conn_id s n [] h k = refl
  send_deltas-nil conn_id s n ((c, d) ∷ rest) h k =
      let old : leb d.version s.last_sent ≡ true = ground arith in
      let c' = center_chunk s.center in
      rw (send_deltas-nil conn_id s n rest h k.1)
        (elim (Bool-cases (is_chunk_in_radius c c'.x c'.y s.radius)) [
          | inl near ↦ rw (near, old) refl
          | inr far ↦ rw far refl
        ])

  send_all-nil :
      (v n : ℕ) (deltas : List (Vec2 × ChunkDelta F)) (l : List (String × SubscriberInfo))
      → All (λ e. n ≤ e.1.last_sent) l
      → All (λ e. e.1.version ≤ n) deltas
      → (send_all v deltas l).1 ≡ []
  unfolding send_all
  send_all-nil v n deltas [] h k = refl
  send_all-nil v n deltas ((c, s) ∷ l) h k =
      rw (send_deltas-nil c s n deltas h.0 k, send_all-nil v n deltas l h.1 k) refl

  flush_deltas-nil :
      (now : ℤ) (m : Manager F) (n : ℕ) (l : List (Vec2 × ChunkDelta F))
      → All (λ e. n ≤ e.1.last_sent) m.subscribers
      → All (λ e. e.1.version ≤ n) l
      → (flush_deltas now m l).1 ≡ []
  unfolding flush_deltas
  flush_deltas-nil now m n [] h k = refl
  flush_deltas-nil now m n (d ∷ ds) h k = send_all-nil m.delta_version n (d ∷ ds) m.subscribers h k

  -- In a manager in which no delta's version and no subscriber's mark is ahead of the manager's
  -- version, a second flush with no change in between logs no delta for anybody, at any two times:
  -- a flush, which sends nothing but logs, takes every delta for delivered.
  pub flush_twice :
      (now later : ℤ) (m : Manager F)
      → InStep m
      → (flush_pending_changes later (flush_pending_changes now m).0).1 ≡ []
  unfolding flush_pending_changes
  flush_twice now later m v = flushed m.chunk_deltas refl v.deltas
    where
      flushed :
          (l : List (Vec2 × ChunkDelta F))
          → m.chunk_deltas ≡ l
          → All (λ e. e.1.version ≤ m.delta_version) l
          → (flush_deltas later (flush_deltas now m l).0 (flush_deltas now m l).0.chunk_deltas).1
            ≡ []
      flushed [] e k = unfold flush_deltas in rw e refl
      flushed (d ∷ ds) e k =
          flush_deltas-nil later (flush_deltas now m (d ∷ ds)).0 m.delta_version
            (cleanup_old_deltas now (d ∷ ds))
            (send_all-marked m.delta_version (d ∷ ds) m.subscribers)
            (cleanup-UpTo now m.delta_version (d ∷ ds) k)
