-- ===== src/Sync/Compressor.antt =====
-- The wire format of a batch.
use mmo_game.Prelude.{
  ℕ, zero, suc, ◌+◌, ◌*◌, ◌/◌, ◌%◌, ◌^◌, ◌≤◌, ◌<◌, List, [], ◌∷◌, ◌++◌, map, length, drop, ltb,
  take-append, drop-append, length-append, ◌≡◌, refl, ap, ◌∙◌, All, false, Bool-cases, inl, inr,
  arith, Option, some, none, Option-cases, take, sym,
}
use mathlib.Core.List.{append_assoc, append-nil}
use mathlib.Core.Option.{map as map_option}
use mmo_game.Sync.{
  Change, bare, zero_time, length_bytes, passthrough_compress, decompress_loop, changes_or_empty,
  passthrough_decompress, smart_compress, smart_decompress,
}

length_bytes_value :
    (len : ℕ)
    → len < 2 ^ 32
    → let n = len % 2 ^ 32 in
      n / 2 ^ 24 % 256 * 2 ^ 24 + n / 2 ^ 16 % 256 * 2 ^ 16 + n / 2 ^ 8 % 256 * 2 ^ 8 + n % 256
      ≡ len
length_bytes_value len h = omega arith

-- A length fits in its four bytes.
abbrev pub Fits : Change → Type 0
Fits c = length c.data_bytes < 2 ^ 32

loop-step :
    (fuel : ℕ) (bytes rest : List ℕ)
    → length bytes < 2 ^ 32
    → decompress_loop (suc fuel) (length_bytes (length bytes) ++ (bytes ++ rest))
      ≡ map_option (λ cs. bare bytes ∷ cs) (decompress_loop fuel rest)
unfolding decompress_loop
loop-step fuel bytes rest h =
    let enough : ltb (length (bytes ++ rest)) (length bytes) ≡ false =
      ground (arith, length-append bytes rest) in
    rw (length_bytes_value (length bytes) h, enough, take-append bytes rest, drop-append bytes rest)
      refl

short_tail :
    (fuel : ℕ) (tail : List ℕ) → length tail < 4 → decompress_loop (suc fuel) tail ≡ some []
unfolding decompress_loop
short_tail fuel [] t = refl
short_tail fuel (a ∷ []) t = refl
short_tail fuel (a ∷ b ∷ []) t = refl
short_tail fuel (a ∷ b ∷ c ∷ []) t = refl
short_tail fuel (a ∷ b ∷ c ∷ d ∷ rest) t = absurd (omega arith)

-- With fuel for the whole payload, the loop reads back what was written, and stops at a tail too
-- short for a length.
loop-compress :
    (cs : List Change) (tail : List ℕ) (fuel : ℕ)
    → All Fits cs
    → length tail < 4
    → length (passthrough_compress cs ++ tail) < fuel
    → decompress_loop fuel (passthrough_compress cs ++ tail)
      ≡ some (map (λ c. bare c.data_bytes) cs)
unfolding passthrough_compress
loop-compress cs tail zero f t h = absurd (omega arith)
loop-compress [] tail (suc fuel) f t h = short_tail fuel tail t
loop-compress (c ∷ cs) tail (suc fuel) f t h =
    let written = c.data_bytes ++ passthrough_compress cs in
    rw
      (
        append_assoc (length_bytes (length c.data_bytes)) written tail,
        append_assoc c.data_bytes (passthrough_compress cs) tail,
      )
      (loop-step fuel c.data_bytes (passthrough_compress cs ++ tail) f.0
        ∙ ap (map_option (◌∷◌ (bare c.data_bytes))) (
            loop-compress cs tail fuel f.1 t (
              omega (
                arith,
                length-append written tail,
                length-append c.data_bytes (passthrough_compress cs),
                length-append (passthrough_compress cs) tail,
              ))))

-- Decompressing a compressed batch, whose lengths fit in 32 bits, gives back every change's bytes
-- in order and nothing else, and ignores a tail of fewer than 4 bytes behind it.
pub decompress-compress :
    (cs : List Change) (tail : List ℕ)
    → All Fits cs
    → length tail < 4
    → passthrough_decompress (passthrough_compress cs ++ tail) ≡ map (λ c. bare c.data_bytes) cs
unfolding passthrough_decompress
decompress-compress cs tail f t =
    ap changes_or_empty
      (loop-compress cs tail (suc (length (passthrough_compress cs ++ tail))) f t (omega arith))

length-drop-le : (n : ℕ) (xs : List ℕ) → length (drop n xs) ≤ length xs
length-drop-le zero xs = omega arith
length-drop-le (suc n) [] = omega arith
length-drop-le (suc n) (x ∷ xs) = omega (arith, length-drop-le n xs)

-- With a round for each byte and one more, the loop comes to an end.
loop_ends :
    (fuel : ℕ) (rest : List ℕ)
    → length rest < fuel
    → (cs : List Change) × (decompress_loop fuel rest ≡ some cs)
unfolding decompress_loop
loop_ends zero rest h = absurd (omega arith)
loop_ends (suc fuel) [] h = ([], refl)
loop_ends (suc fuel) (a ∷ []) h = ([], refl)
loop_ends (suc fuel) (a ∷ b ∷ []) h = ([], refl)
loop_ends (suc fuel) (a ∷ b ∷ c ∷ []) h = ([], refl)
loop_ends (suc fuel) (a ∷ b ∷ c ∷ d ∷ rest) h =
    let n = a * 2 ^ 24 + b * 2 ^ 16 + c * 2 ^ 8 + d in
    let (cs, ends) = loop_ends fuel (drop n rest) (omega (arith, length-drop-le n rest)) in
    elim (Bool-cases (ltb (length rest) n)) [
      | inl cut ↦ rw cut ([], refl)
      | inr whole ↦ rw (whole, ends) (_, refl)
    ]

-- An end that the loop comes to stays its end with more fuel.
loop-more :
    (fuel more : ℕ) (rest : List ℕ) (cs : List Change)
    → fuel ≤ more
    → decompress_loop fuel rest ≡ some cs
    → decompress_loop more rest ≡ some cs
unfolding decompress_loop
loop-more zero more rest cs le h = cc
loop-more (suc fuel) zero rest cs le h = absurd (omega arith)
loop-more (suc fuel) (suc more) [] cs le h = h
loop-more (suc fuel) (suc more) (a ∷ []) cs le h = h
loop-more (suc fuel) (suc more) (a ∷ b ∷ []) cs le h = h
loop-more (suc fuel) (suc more) (a ∷ b ∷ c ∷ []) cs le h = h
loop-more (suc fuel) (suc more) (a ∷ b ∷ c ∷ d ∷ rest) cs le h =
    let n = a * 2 ^ 24 + b * 2 ^ 16 + c * 2 ^ 8 + d in
    elim (Bool-cases (ltb (length rest) n)) [
      | inl cut ↦ rw cut (rw cut at h)
      | inr whole ↦ elim (Option-cases (decompress_loop fuel (drop n rest))) [
        | inl out ↦ cc (rw (whole, out) at h)
        | inr (ds, ends) ↦
            rw (whole, loop-more fuel more (drop n rest) ds (omega arith) ends)
              (rw (whole, ends) at h)
      ]
    ]

-- The decoding loop comes to an end on every payload, valid or not, within one round more than the
-- payload has bytes, and what Decompress returns is what the loop then has.
pub decompress_fuel :
    (fuel : ℕ) (payload : List ℕ)
    → length payload < fuel
    → decompress_loop fuel payload ≡ some (passthrough_decompress payload)
unfolding passthrough_decompress
decompress_fuel fuel payload h =
    let (cs, ends) = loop_ends (suc (length payload)) payload (omega arith) in
    loop-more (suc (length payload)) fuel payload cs (omega arith) ends
    ∙ ap (λ o. some (changes_or_empty o)) (sym ends)

first_bare :
    (bytes : List ℕ) (o : Option (List Change))
    → All (λ c. c.timestamp ≡ zero_time) (changes_or_empty o)
    → All (λ c. c.timestamp ≡ zero_time) (changes_or_empty (map_option (λ cs. bare bytes ∷ cs) o))
first_bare bytes none h = tt
first_bare bytes (some cs) h = (refl, h)

loop_bare :
    (fuel : ℕ) (rest : List ℕ)
    → All (λ c. c.timestamp ≡ zero_time) (changes_or_empty (decompress_loop fuel rest))
unfolding decompress_loop
loop_bare zero rest = tt
loop_bare (suc fuel) [] = tt
loop_bare (suc fuel) (a ∷ []) = tt
loop_bare (suc fuel) (a ∷ b ∷ []) = tt
loop_bare (suc fuel) (a ∷ b ∷ c ∷ []) = tt
loop_bare (suc fuel) (a ∷ b ∷ c ∷ d ∷ rest) =
    let n = a * 2 ^ 24 + b * 2 ^ 16 + c * 2 ^ 8 + d in
    elim (Bool-cases (ltb (length rest) n)) [
      | inl cut ↦ rw cut tt
      | inr whole ↦ rw whole (first_bare (take n rest) _ (loop_bare fuel (drop n rest)))
    ]

-- The time of a change does not cross the wire: what is read back has the zero time.
pub decompress_zero_time :
    (payload : List ℕ) → All (λ c. c.timestamp ≡ zero_time) (passthrough_decompress payload)
unfolding passthrough_decompress
decompress_zero_time payload = loop_bare (suc (length payload)) payload

module _ (gzip gunzip : List ℕ → Option (List ℕ)) where
  -- The gzip compressor has the same round trip, for every library whose decompression undoes its
  -- compression.
  pub smart_decompress-compress :
      (cs : List Change) (packed : List ℕ)
      → ((raw packed : List ℕ) → gzip raw ≡ some packed → gunzip packed ≡ some raw)
      → All Fits cs
      → smart_compress gzip gunzip cs ≡ some packed
      → smart_decompress gzip gunzip packed ≡ some (map (λ c. bare c.data_bytes) cs)
  unfolding smart_compress smart_decompress
  smart_decompress-compress cs packed undo f h =
      rw (undo (passthrough_compress cs) packed h, smart_decompress)
        (ap some (
          rw (append-nil (passthrough_compress cs)) at (decompress-compress cs [] f (omega arith))))
