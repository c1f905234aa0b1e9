-- ===== src/Sync/Exchange.antt =====
-- A batch from the flush of one region to the consumer of another.
use mathlib.Core.List.{append-nil}
use mmo_game.Prelude.{
  ℕ, suc, String, some, List, [], ◌∷◌, map, length, ◌≡◌, refl, ap, ◌∙◌, All, arith,
}
use mmo_game.Sync.{
  Change, bare, zero_time, BatchManager, flush, passthrough_compress, passthrough_decompress,
  passthrough_compressor, LogLine, received, decoded, listed, no_timestamp, applying, apply_failed,
  apply_change, apply_changes, consume,
}
use mmo_game.Sync.Compressor.{Fits, decompress-compress}

decompress_whole :
    (cs : List Change)
    → All Fits cs
    → passthrough_decompress (passthrough_compress cs) ≡ map (λ c. bare c.data_bytes) cs
decompress_whole cs f =
    rw (append-nil (passthrough_compress cs)) at (decompress-compress cs [] f (omega arith))

-- What a consumer logs of changes of which it knows the bytes only: a change without bytes fails,
-- any other is applied with a warning and for no region.
abbrev pub heard : ℕ → List (List ℕ) → List LogLine
heard i [] = []
heard i ([] ∷ rest) =
    listed i 0 "" zero_time ∷ apply_failed i "change data is empty" ∷ heard (suc i) rest
heard i ((b ∷ bytes) ∷ rest) =
    let size = length (b ∷ bytes) in
    listed i size "" zero_time ∷ no_timestamp ∷ applying "" size ∷ heard (suc i) rest

apply_changes-bare :
    (i : ℕ) (bodies : List (List ℕ)) → apply_changes i (map bare bodies) ≡ heard i bodies
unfolding apply_changes apply_change
apply_changes-bare i [] = refl
apply_changes-bare i ([] ∷ rest) = rw (apply_changes-bare (suc i) rest) refl
apply_changes-bare i ((b ∷ bytes) ∷ rest) = rw (apply_changes-bare (suc i) rest) refl

bodies_bare :
    (cs : List Change) → map (λ c. bare c.data_bytes) cs ≡ map bare (map (λ c. c.data_bytes) cs)
bodies_bare [] = refl
bodies_bare (c ∷ cs) = ap (◌∷◌ (bare c.data_bytes)) (bodies_bare cs)

length-bodies : (cs : List Change) → length (map (λ c. bare c.data_bytes) cs) ≡ length cs
length-bodies [] = refl
length-bodies (c ∷ cs) = ap suc (length-bodies cs)

-- What a flush of a batch, whose lengths fit in 32 bits, puts on the bus decodes to the bytes of
-- every change of the batch, in order and nothing else, and the flushed batch is empty. A consumer
-- of it logs each change with its size, but without its region and its time: it warns of every
-- change that has bytes that its time is missing, and fails just the changes without bytes.
pub consume-flush :
    (bm : BatchManager) (packed : List ℕ) (source : String)
    → All Fits bm.buf
    → (flush passthrough_compressor bm).1 ≡ some packed
    → (passthrough_decompress packed ≡ map bare (map (λ c. c.data_bytes) bm.buf))
      × ((flush passthrough_compressor bm).0.buf ≡ [])
      × (consume passthrough_compressor source packed
          ≡ received (length packed) source
            ∷ decoded (length bm.buf)
            ∷ heard 0 (map (λ c. c.data_bytes) bm.buf))
unfolding consume flush
consume-flush bm packed source f h = sent bm.buf refl f
  where
    sent :
        (cs : List Change)
        → bm.buf ≡ cs
        → All Fits cs
        → (passthrough_decompress packed ≡ map bare (map (λ c. c.data_bytes) bm.buf))
          × ((flush passthrough_compressor bm).0.buf ≡ [])
          × (consume passthrough_compressor source packed
              ≡ received (length packed) source
                ∷ decoded (length bm.buf)
                ∷ heard 0 (map (λ c. c.data_bytes) bm.buf))
    sent [] e g = cc (rw (e, flush) at h)
    sent (c ∷ cs) e g =
        let out : some (passthrough_compress (c ∷ cs)) ≡ some packed = rw (e, flush) at h in
        let same : passthrough_compress (c ∷ cs) ≡ packed = ground arith in
        let read : passthrough_decompress packed ≡ map (λ x. bare x.data_bytes) (c ∷ cs) =
          rw (← same) (decompress_whole (c ∷ cs) g) in
        (
          rw e (read ∙ bodies_bare (c ∷ cs)),
          rw (e, flush) refl,
          rw (e, consume, read, length-bodies cs)
              (ap (λ l. received (length packed) source ∷ decoded (length (c ∷ cs)) ∷ l)
                (ap (apply_changes 0) (bodies_bare (c ∷ cs))
                  ∙ apply_changes-bare 0 (map (λ x. x.data_bytes) (c ∷ cs)))),
        )
