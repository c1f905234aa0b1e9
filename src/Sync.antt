-- ===== src/Sync.antt =====
-- Synchronisation between regions: internal/sync. A `time.Time` is a ℤ, nanoseconds since the
-- zero time; bytes are numbers below 256. The event bus is the world outside: what a flush
-- publishes is its result.
pub mod Compressor
pub mod Batch
pub mod Exchange
use mathlib.Core.Option.{map as map_option}
use mmo_game.Prelude.{
  ℕ, zero, suc, ◌+◌, ◌*◌, ◌/◌, ◌%◌, ◌^◌, ℤ, pos, ltb_ℤ, leb_ℤ, String, Bool, true, false, Option,
  none, some, List, [], ◌∷◌, ◌++◌, length, take, drop, set, ltb, if◌then◌else◌, ◌==◌, int_eq,
}

pub record Change : Type 0 where
  pub data_bytes : List ℕ
  pub priority : ℤ
  pub timestamp : ℤ
  pub source_region : String
  pub change_type : String

abbrev pub zero_time : ℤ
zero_time = pos 0

-- `Change{Data: data}`, the other fields at their zero values.
abbrev pub bare : List ℕ → Change
bare bytes = record {
  data_bytes = bytes;
  priority = pos 0;
  timestamp = zero_time;
  source_region = "";
  change_type = "";
}

pub record DeltaCompressor : Type 0 where
  pub compress : List Change → Option (List ℕ)
  pub decompress : List ℕ → Option (List Change)

-- The four bytes of uint32(len(c.Data)), the highest first.
abbrev pub length_bytes : ℕ → List ℕ
length_bytes len =
    let n = len % 2 ^ 32 in
    (n / 2 ^ 24 % 256) ∷ (n / 2 ^ 16 % 256) ∷ (n / 2 ^ 8 % 256) ∷ (n % 256) ∷ []

unfoldable pub passthrough_compress : List Change → List ℕ
passthrough_compress [] = []
passthrough_compress (c ∷ changes) =
    length_bytes (length c.data_bytes) ++ (c.data_bytes ++ passthrough_compress changes)

-- The loop of `Decompress` over what is left of the payload. A length that is cut, or that
-- reaches past the end, breaks it. A loop that runs out of fuel has no result.
unfoldable pub decompress_loop : ℕ → List ℕ → Option (List Change)
decompress_loop zero _ = none
decompress_loop (suc fuel) (a ∷ b ∷ c ∷ d ∷ rest) =
    let n = a * 2 ^ 24 + b * 2 ^ 16 + c * 2 ^ 8 + d in
    let more = decompress_loop fuel (drop n rest) in
    if ltb (length rest) n then some [] else map_option (λ cs. bare (take n rest) ∷ cs) more
decompress_loop (suc fuel) _ = some []

abbrev pub changes_or_empty : Option (List Change) → List Change
changes_or_empty none = []
changes_or_empty (some changes) = changes

-- One round reads at least a length, so that a round for each byte and one more is enough fuel.
unfoldable pub passthrough_decompress : List ℕ → List Change
unfolding decompress_loop
passthrough_decompress payload = changes_or_empty (decompress_loop (suc (length payload)) payload)

abbrev pub passthrough_compressor : DeltaCompressor
passthrough_compressor = record {
  compress = λ changes. some (passthrough_compress changes);
  decompress = λ payload. some (passthrough_decompress payload);
}

-- gzip is a library: its two directions are parameters, and may fail.
module _ (gzip gunzip : List ℕ → Option (List ℕ)) where
  unfoldable pub smart_compress : List Change → Option (List ℕ)
  smart_compress changes = gzip (passthrough_compress changes)

  unfoldable pub smart_decompress : List ℕ → Option (List Change)
  smart_decompress payload = elim (gunzip payload) [
    | none ↦ none
    | some raw ↦ some (passthrough_decompress raw)
  ]

  unfoldable pub smart_compressor : DeltaCompressor
  smart_compressor = record { compress = smart_compress; decompress = smart_decompress }

pub record BatchManager : Type 0 where
  pub buf : List Change
  pub capacity : ℤ
  pub source : String

-- The loop that looks for the lowest priority below the new change's, and its index.
scan_low : ℕ → Option ℕ → ℤ → List Change → Option ℕ
scan_low i low_idx low_pri [] = low_idx
scan_low i low_idx low_pri (c ∷ buf) =
    let lower = ltb_ℤ c.priority low_pri in
    scan_low (suc i) (if lower then some i else low_idx) (if lower then c.priority else low_pri) buf

replace_at : BatchManager → Change → Option ℕ → BatchManager
replace_at bm ch none = bm
replace_at bm ch (some low_idx) = record bm { buf = set bm.buf low_idx ch }

unfoldable pub add_change : BatchManager → Change → BatchManager
unfolding scan_low replace_at
add_change bm ch =
    if leb_ℤ bm.capacity (pos (length bm.buf))
    then replace_at bm ch (scan_low 0 none ch.priority bm.buf)
    else record bm { buf = bm.buf ++ ch ∷ [] }

-- What `flush` hands to the bus: nothing, or the payload of one SyncBatch. The buffer is emptied
-- before the compression, and stays so when that fails.
unfoldable pub flush : DeltaCompressor → BatchManager → BatchManager × Option (List ℕ)
flush compressor bm = elim bm.buf [
  | [] ↦ (bm, none)
  | c ∷ rest ↦ (record bm { buf = [] }, compressor.compress (c ∷ rest))
]

-- `SyncProducer.handle`: the event's payload, with priority 3.
unfoldable pub produce : BatchManager → List ℕ → BatchManager
produce bm payload = add_change bm (record (bare payload) { priority = pos 3 })

-- What the consumer writes to its log, bytes as their number.
pub data LogLine : Type 0 where
  received : ℕ → String → LogLine
  decode_failed : LogLine
  decoded : ℕ → LogLine
  listed : ℕ → ℕ → String → ℤ → LogLine
  no_timestamp : LogLine
  applying : String → ℕ → LogLine
  apply_failed : ℕ → String → LogLine

-- `SyncConsumer.applyChange`, which so far only logs: an empty change is an error.
unfoldable pub apply_change : Change → List LogLine × Option String
apply_change change = elim change.data_bytes [
  | [] ↦ ([], some "change data is empty")
  | _ ∷ _ ↦
      let line = applying change.source_region (length change.data_bytes) in
      (if change.timestamp == zero_time then no_timestamp ∷ line ∷ [] else line ∷ [], none)
]

abbrev failure : ℕ → Option String → List LogLine
failure i none = []
failure i (some error) = apply_failed i error ∷ []

-- The loop over the changes of a batch.
unfoldable pub apply_changes : ℕ → List Change → List LogLine
unfolding apply_change
apply_changes i [] = []
apply_changes i (change ∷ changes) =
    let result = apply_change change in
    listed i (length change.data_bytes) change.source_region change.timestamp
    ∷ (result.0 ++ (failure i result.1 ++ apply_changes (suc i) changes))

-- `SyncConsumer.handle` on an event with a source and a payload.
unfoldable pub consume : DeltaCompressor → String → List ℕ → List LogLine
unfolding apply_changes
consume compressor source payload =
    received (length payload) source ∷ elim (compressor.decompress payload) [
      | none ↦ decode_failed ∷ []
      | some changes ↦ decoded (length changes) ∷ apply_changes 0 changes
    ]
