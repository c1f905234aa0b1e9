-- ===== src/Delta/Versions.antt =====
-- Versions grow, and nobody is ahead of the manager's.
pub mod Delivery
use mmo_game.Prelude.{
  ℕ, zero, suc, ◌+◌, ◌%◌, ◌^◌, ◌≤◌, ◌<◌, ℤ, ltb_ℤ, ◌-ℤ◌, String, Bool, true, false, Option, none,
  some, List, [], ◌∷◌, ◌≡◌, refl, ap, ◌∙◌, ◌⊎◌, inl, inr, All, Bool-cases, Option-cases, lookup,
  insert, delete, All-insert, All-delete, All-lookup, length, if◌then◌else◌, arith, string_eq,
  subst,
}
use mmo_game.Vec.{Vec2, vec2_eq, to_chunk_coords}
use mmo_game.Delta.{
  Manager, ChunkDelta, SubscriberInfo, BlockChangeInfo, new_manager, add_block_change, subscribe,
  unsubscribe, update_subscription, flush_pending_changes, flush_deltas, move_subscriber, send_all,
  cleanup_old_deltas, second, next_version,
}
use mmo_game.Delta.Calls.{Call, adds, subscribes, unsubscribes, updates, flushes, call, calls}

abbrev pub SentUpTo : ℕ → List (String × SubscriberInfo) → Type 0
SentUpTo n = All (λ e. e.1.last_sent ≤ n)

module _ {F : Type 0} where
  abbrev pub DeltasUpTo : ℕ → List (Vec2 × ChunkDelta F) → Type 0
  DeltasUpTo n = All (λ e. e.1.version ≤ n)

  pub record InStep (m : Manager F) : Type 0 where
    pub deltas : DeltasUpTo m.delta_version m.chunk_deltas
    pub sent : SentUpTo m.delta_version m.subscribers

  DeltasUpTo-mono :
      (a b : ℕ) (l : List (Vec2 × ChunkDelta F)) → a ≤ b → DeltasUpTo a l → DeltasUpTo b l
  DeltasUpTo-mono a b [] h k = tt
  DeltasUpTo-mono a b (e ∷ l) h k = (omega (arith, k.0), DeltasUpTo-mono a b l h k.1)

SentUpTo-mono :
    (a b : ℕ) (l : List (String × SubscriberInfo))
    → a ≤ b
    → All (λ e. e.1.last_sent ≤ a) l
    → All (λ e. e.1.last_sent ≤ b) l
SentUpTo-mono a b [] h k = tt
SentUpTo-mono a b (e ∷ l) h k = (omega (arith, k.0), SentUpTo-mono a b l h k.1)

module _ {F : Type 0} where
  cleanup-UpTo :
      (now : ℤ) (n : ℕ) (l : List (Vec2 × ChunkDelta F))
      → All (λ e. e.1.version ≤ n) l
      → All (λ e. e.1.version ≤ n) (cleanup_old_deltas now l)
  unfolding cleanup_old_deltas
  cleanup-UpTo now n [] h = tt
  cleanup-UpTo now n ((k, d) ∷ l) h = elim (Bool-cases (ltb_ℤ d.last_updated (now -ℤ second))) [
    | inl old ↦ rw old (cleanup-UpTo now n l h.1)
    | inr new ↦ rw new (h.0, cleanup-UpTo now n l h.1)
  ]

  -- Every subscriber is marked with the manager's version, or more.
  send_all-marked :
      (n : ℕ) (deltas : List (Vec2 × ChunkDelta F)) (l : List (String × SubscriberInfo))
      → All (λ e. n ≤ e.1.last_sent) (send_all n deltas l).0
  unfolding send_all
  send_all-marked n deltas [] = tt
  send_all-marked n deltas ((c, s) ∷ l) = (omega arith, send_all-marked n deltas l)

  send_all-UpTo :
      (n : ℕ) (deltas : List (Vec2 × ChunkDelta F)) (l : List (String × SubscriberInfo))
      → All (λ e. e.1.last_sent ≤ n) (send_all n deltas l).0
  unfolding send_all
  send_all-UpTo n deltas [] = tt
  send_all-UpTo n deltas ((c, s) ∷ l) = (omega arith, send_all-UpTo n deltas l)

  call-InStep :
      (m : Manager F) (c : Call F) → m.delta_version + 1 < 2 ^ 64 → InStep m → InStep (call m c)
  unfolding call add_block_change subscribe unsubscribe update_subscription flush_pending_changes
  call-InStep m (adds now p info) h v = record {
    deltas =
        All-insert (λ e. e.1.version ≤ next_version m.delta_version) (to_chunk_coords p) _
          m.chunk_deltas (omega arith)
          (DeltasUpTo-mono m.delta_version (next_version m.delta_version) m.chunk_deltas
            (omega arith) v.deltas);
    sent =
        SentUpTo-mono m.delta_version (next_version m.delta_version) m.subscribers (omega arith)
          v.sent;
  }
  call-InStep m (subscribes conn_id center radius) h v = record {
    deltas = v.deltas;
    sent =
        All-insert (λ e. e.1.last_sent ≤ m.delta_version) conn_id _ m.subscribers (omega arith)
          v.sent;
  }
  call-InStep m (unsubscribes conn_id) h v = record {
    deltas = v.deltas;
    sent = All-delete (λ e. e.1.last_sent ≤ m.delta_version) conn_id m.subscribers v.sent;
  }
  call-InStep m (updates conn_id center radius) h v = moved (lookup conn_id m.subscribers) refl
    where
      moved :
          (o : Option SubscriberInfo)
          → lookup conn_id m.subscribers ≡ o
          → InStep (move_subscriber m conn_id center radius o)
      moved none e = unfold move_subscriber in v
      moved (some s) e =
          unfold move_subscriber in
          record {
            deltas = v.deltas;
            sent =
                All-insert (λ e. e.1.last_sent ≤ m.delta_version) conn_id
                  (record s { center = center; radius = radius }) m.subscribers
                  (All-lookup (λ e. e.1.last_sent ≤ m.delta_version) conn_id s m.subscribers v.sent
                    e)
                  v.sent;
          }
  call-InStep m (flushes now) h v = flushed m.chunk_deltas v.deltas
    where
      flushed :
          (l : List (Vec2 × ChunkDelta F))
          → All (λ e. e.1.version ≤ m.delta_version) l
          → InStep (flush_deltas now m l).0
      flushed [] k = unfold flush_deltas in v
      flushed (d ∷ ds) k =
          unfold flush_deltas in
          record {
            deltas = cleanup-UpTo now m.delta_version (d ∷ ds) k;
            sent = send_all-UpTo m.delta_version (d ∷ ds) m.subscribers;
          }

  -- The version moves by one at most.
  version-call :
      (m : Manager F) (c : Call F)
      → m.delta_version + 1 < 2 ^ 64
      → (call m c).delta_version ≤ m.delta_version + 1
  unfolding call add_block_change subscribe unsubscribe update_subscription flush_pending_changes
  version-call m (adds now p info) h = omega arith
  version-call m (subscribes conn_id center radius) h = omega arith
  version-call m (unsubscribes conn_id) h = omega arith
  version-call m (updates conn_id center radius) h = moved (lookup conn_id m.subscribers)
    where
      moved :
          (o : Option SubscriberInfo)
          → (move_subscriber m conn_id center radius o).delta_version ≤ m.delta_version + 1
      moved none = unfold move_subscriber in omega arith
      moved (some s) = unfold move_subscriber in omega arith
  version-call m (flushes now) h = flushed m.chunk_deltas
    where
      flushed :
          (l : List (Vec2 × ChunkDelta F))
          → (flush_deltas now m l).0.delta_version ≤ m.delta_version + 1
      flushed [] = unfold flush_deltas in omega arith
      flushed (d ∷ ds) = unfold flush_deltas in omega arith

  calls_from-InStep :
      (cs : List (Call F)) (m : Manager F)
      → m.delta_version + length cs < 2 ^ 64
      → InStep m
      → InStep (calls m cs)
  unfolding calls
  calls_from-InStep [] m h v = v
  calls_from-InStep (c ∷ cs) m h v =
      calls_from-InStep cs (call m c) (omega (arith, version-call m c))
        (call-InStep m c (omega arith) v)

  -- Whatever calls a new manager receives, fewer than 2^64 of them, no delta's version and no
  -- subscriber's mark is ahead of the manager's version.
  pub calls-InStep : (cs : List (Call F)) → length cs < 2 ^ 64 → InStep (calls new_manager cs)
  calls-InStep cs h =
      calls_from-InStep cs new_manager (omega arith) (record { deltas = tt; sent = tt })
