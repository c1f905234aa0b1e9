-- ===== src/Delta.antt =====
-- Block changes on their way to the clients: internal/world/block_delta_manager.go. `now` is the
-- clock at the call, in nanoseconds. A flush builds a message for each delta that a subscriber is
-- due and then only logs it: the call that would send the message is a comment in the source. So a
-- flush's result is what it logs, in order. A version is a uint64. CRC-32 is a library and is a
-- parameter of the checksum.
pub mod Calls
pub mod Versions
pub mod Center
use mmo_game.Prelude.{
  ℕ, suc, ◌+◌, ◌%◌, ◌^◌, ℤ, pos, ◌+ℤ◌, ◌-ℤ◌, ◌*ℤ◌, wrap, quot, low_bits, ltb_ℤ, leb_ℤ, leb, String,
  Bool, true, false, ◌&&◌, Option, none, some, List, [], ◌∷◌, ◌++◌, lookup, insert, delete, length,
  if◌then◌else◌, ◌==◌, string_eq, pos_part,
}
use mmo_game.Vec.{Vec2, vec2_eq, to_chunk_coords, local_in_chunk}
use mmo_game.Block.{Metadata}

pub record BlockChangeInfo (F : Type 0) : Type 0 where
  pub block_id : ℕ
  pub metadata : Metadata F
  pub change_type : String
  pub player_id : ℕ

pub record ChunkDelta (F : Type 0) : Type 0 where
  pub chunk_coords : Vec2
  pub changes : List (Vec2 × BlockChangeInfo F)
  pub version : ℕ
  pub last_updated : ℤ

pub record SubscriberInfo : Type 0 where
  pub conn_id : String
  pub center : Vec2
  pub radius : ℤ
  pub last_sent : ℕ

pub record Manager (F : Type 0) : Type 0 where
  pub chunk_deltas : List (Vec2 × ChunkDelta F)
  pub subscribers : List (String × SubscriberInfo)
  pub delta_version : ℕ

-- What is logged of a delta: the announcement in place of the send, with the chunk, the client, the
-- number of changes and the version, and the line behind it.
pub data LogLine : Type 0 where
  sending : Vec2 → String → ℕ → ℕ → LogLine
  delta_sent : Vec2 → String → ℕ → LogLine

abbrev pub second : ℤ
second = pos 1_000_000_000

-- deltaVersion++ on a uint64.
abbrev pub next_version : ℕ → ℕ
next_version v = (v + 1) % 2 ^ 64

module _ {F : Type 0} where
  abbrev pub new_manager : Manager F
  new_manager = record { chunk_deltas = []; subscribers = []; delta_version = 0 }

  abbrev fresh_delta : Vec2 → ℕ → ℤ → ChunkDelta F
  fresh_delta coords version now = record {
    chunk_coords = coords;
    changes = [];
    version = version;
    last_updated = now;
  }

  abbrev delta_or_new : Option (ChunkDelta F) → Vec2 → ℕ → ℤ → ChunkDelta F
  delta_or_new none coords version now = fresh_delta coords version now
  delta_or_new (some delta) coords version now = delta

  abbrev add_to_delta : ChunkDelta F → Vec2 → BlockChangeInfo F → ℕ → ℤ → ChunkDelta F
  add_to_delta delta p info version now = record delta {
    changes = insert p info delta.changes;
    version = version;
    last_updated = now;
  }

  unfoldable pub add_block_change : ℤ → Manager F → Vec2 → BlockChangeInfo F → Manager F
  add_block_change now m world_pos info =
      let coords = to_chunk_coords world_pos in
      let version = next_version m.delta_version in
      let delta = delta_or_new (lookup coords m.chunk_deltas) coords version now in
      record m {
        delta_version = version;
        chunk_deltas =
            insert coords (add_to_delta delta (local_in_chunk world_pos) info version now)
              m.chunk_deltas;
      }

  unfoldable pub subscribe : Manager F → String → Vec2 → ℤ → Manager F
  subscribe m conn_id center radius = record m {
    subscribers =
        insert conn_id
          (record {
            conn_id = conn_id;
            center = center;
            radius = radius;
            last_sent = m.delta_version;
          })
          m.subscribers;
  }

  unfoldable pub unsubscribe : Manager F → String → Manager F
  unsubscribe m conn_id = record m { subscribers = delete conn_id m.subscribers }

  move_subscriber : Manager F → String → Vec2 → ℤ → Option SubscriberInfo → Manager F
  move_subscriber m conn_id center radius none = m
  move_subscriber m conn_id center radius (some subscriber) = record m {
    subscribers =
        insert conn_id (record subscriber { center = center; radius = radius }) m.subscribers;
  }

  unfoldable pub update_subscription : Manager F → String → Vec2 → ℤ → Manager F
  unfolding move_subscriber
  update_subscription m conn_id center radius =
      move_subscriber m conn_id center radius (lookup conn_id m.subscribers)

-- dx*dx + dy*dy <= radius*radius, on ints.
unfoldable pub is_chunk_in_radius : Vec2 → ℤ → ℤ → ℤ → Bool
is_chunk_in_radius chunk_coords center_x center_y radius =
    let dx = wrap (chunk_coords.x -ℤ center_x) in
    let dy = wrap (chunk_coords.y -ℤ center_y) in
    leb_ℤ (wrap (wrap (dx *ℤ dx) +ℤ wrap (dy *ℤ dy))) (wrap (radius *ℤ radius))

-- A subscriber's chunk as `sendDeltasToSubscriber` computes it: `/` rounds towards zero.
unfoldable pub center_chunk : Vec2 → Vec2
center_chunk center = record { x = quot center.x 16; y = quot center.y 16 }

abbrev to_byte : ℤ → ℕ
to_byte a = pos_part (low_bits a 8)

module _ {F : Type 0} (crc32 : List ℕ → ℕ) where
  unfoldable pub calculate_delta_crc : ChunkDelta F → ℕ
  calculate_delta_crc delta =
      crc32
        (to_byte delta.chunk_coords.x ∷ to_byte delta.chunk_coords.y ∷ (delta.version % 256) ∷ [])

module _ {F : Type 0} where
  abbrev announced : String → Vec2 → ChunkDelta F → List LogLine
  announced conn_id coords delta =
      sending coords conn_id (length delta.changes) delta.version
      ∷ delta_sent coords conn_id (length delta.changes)
      ∷ []

  -- The two `continue`s of the loop over the deltas.
  abbrev pub is_due : SubscriberInfo → Vec2 → ChunkDelta F → Bool
  is_due subscriber coords delta =
      let c = center_chunk subscriber.center in
      if is_chunk_in_radius coords c.x c.y subscriber.radius
      then (if leb delta.version subscriber.last_sent then false else true)
      else false

  unfoldable pub send_deltas : String → SubscriberInfo → List (Vec2 × ChunkDelta F) → List LogLine
  send_deltas conn_id subscriber [] = []
  send_deltas conn_id subscriber ((coords, delta) ∷ deltas) =
      let rest = send_deltas conn_id subscriber deltas in
      if is_due subscriber coords delta then announced conn_id coords delta ++ rest else rest

  -- The loop over the subscribers, each of which is marked as up to date.
  send_all :
      ℕ
      → List (Vec2 × ChunkDelta F)
      → List (String × SubscriberInfo)
      → List (String × SubscriberInfo) × List LogLine
  send_all version deltas [] = ([], [])
  send_all version deltas ((conn_id, subscriber) ∷ subscribers) =
      let rest = send_all version deltas subscribers in
      (
        (conn_id, record subscriber { last_sent = version }) ∷ rest.0,
        send_deltas conn_id subscriber deltas ++ rest.1,
      )

  cleanup_old_deltas : ℤ → List (Vec2 × ChunkDelta F) → List (Vec2 × ChunkDelta F)
  cleanup_old_deltas now [] = []
  cleanup_old_deltas now ((coords, delta) ∷ deltas) =
      let rest = cleanup_old_deltas now deltas in
      if ltb_ℤ delta.last_updated (now -ℤ second) then rest else (coords, delta) ∷ rest

  flush_deltas : ℤ → Manager F → List (Vec2 × ChunkDelta F) → Manager F × List LogLine
  flush_deltas now m [] = (m, [])
  flush_deltas now m (delta ∷ deltas) =
      let sent = send_all m.delta_version (delta ∷ deltas) m.subscribers in
      (
        record m { subscribers = sent.0; chunk_deltas = cleanup_old_deltas now (delta ∷ deltas) },
        sent.1,
      )

  unfoldable pub flush_pending_changes : ℤ → Manager F → Manager F × List LogLine
  unfolding send_deltas send_all cleanup_old_deltas flush_deltas
  flush_pending_changes now m = flush_deltas now m m.chunk_deltas

module _ {F : Type 0} where
  total_changes : List (Vec2 × ChunkDelta F) → ℕ
  total_changes [] = 0
  total_changes ((coords, delta) ∷ deltas) = length delta.changes + total_changes deltas

  unfoldable pub get_pending_changes_count : Manager F → ℕ
  unfolding total_changes
  get_pending_changes_count m = total_changes m.chunk_deltas

  unfoldable pub get_subscribers_count : Manager F → ℕ
  get_subscribers_count m = length m.subscribers
