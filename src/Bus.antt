-- ===== src/Bus.antt =====
-- The event bus in memory: internal/eventbus/eventbus.go. The buffered channel is the list of what
-- waits in it; a bus without a buffer is left out. A handler is called in a goroutine of its own,
-- which takes no lock until it counts: it is in `started` until it has looked at its subscriber's
-- context, in `entered` until it calls the handler, and in `finishing` until it has counted. The
-- calls that handlers have got are kept in `handled`.
pub mod Delivery
pub mod Runs
use mmo_game.Prelude.{
  ℕ, ◌+◌, ◌%◌, ◌^◌, ℤ, pos, ◌+ℤ◌, wrap, ltb_ℤ, ltb, String, Bool, true, false, ◌&&◌, ◌||◌, Option,
  none, some, List, [], ◌∷◌, ◌++◌, lookup, insert, delete, length, if◌then◌else◌, ◌==◌, string_eq,
  int_eq, ◌≡◌,
}

pub record Envelope : Type 0 where
  pub id : String
  pub timestamp : ℕ
  pub source : String
  pub event_type : String
  pub version : ℤ
  pub correlation_id : String
  pub tenant : String
  pub priority : ℤ
  pub payload : List ℕ
  pub metadata : List (String × String)

pub record Filter : Type 0 where
  pub types : List String
  pub sources : List String

pub record Stats : Type 0 where
  pub published : ℕ
  pub consumed : ℕ
  pub dropped : ℕ
  pub in_flight : ℕ

-- A subscriber's context is done once it is in `cancelled`.
pub record MemoryBus : Type 0 where
  pub subscribers : List (ℤ × Filter)
  pub cancelled : List (ℤ × Unit {0})
  pub next_id : ℤ
  pub stats : Stats
  pub buffer : List Envelope
  pub capacity : ℕ
  pub started : List (ℤ × Envelope)
  pub entered : List (ℤ × Envelope)
  pub finishing : List (ℤ × Envelope)
  pub handled : List (ℤ × Envelope)

unfoldable pub new_memory_bus : ℕ → MemoryBus
new_memory_bus capacity = record {
  subscribers = [];
  cancelled = [];
  next_id = pos 0;
  stats = record { published = 0; consumed = 0; dropped = 0; in_flight = 0 };
  buffer = [];
  capacity = capacity;
  started = [];
  entered = [];
  finishing = [];
  handled = [];
}

abbrev pub counted_published : MemoryBus → MemoryBus
counted_published bus = record bus {
  stats = record (bus.stats) { published = (bus.stats.published + 1) % 2 ^ 64 };
}

abbrev pub counted_dropped : MemoryBus → MemoryBus
counted_dropped bus = record bus {
  stats = record (bus.stats) { dropped = (bus.stats.dropped + 1) % 2 ^ 64 };
}

-- Publish returns nil, or the error of its context, or it waits for room.
pub data Published : Type 0 where
  accepted : MemoryBus → Published
  context_error waits : Published

unfoldable pub publish : MemoryBus → Bool → Envelope → Published
publish bus context_done ev =
    if ltb (length bus.buffer) bus.capacity
    then accepted (counted_published (record bus { buffer = bus.buffer ++ ev ∷ [] }))
    else (if ltb_ℤ ev.priority (pos 5)
        then accepted (counted_dropped bus)
        else (if context_done then context_error else waits))

unfoldable pub subscribe : MemoryBus → Filter → MemoryBus × ℤ
subscribe bus f = (
  record bus {
    next_id = wrap (bus.next_id +ℤ pos 1);
    subscribers = insert bus.next_id f bus.subscribers;
  },
  bus.next_id,
)

unfoldable pub metrics : MemoryBus → Stats
metrics bus = record (bus.stats) { in_flight = length bus.buffer }

abbrev pub has_string : String → List String → Bool
has_string val [] = false
has_string val (v ∷ arr) = v == val || has_string val arr

abbrev pub matches : String → List String → Bool
matches val [] = true
matches val (v ∷ arr) = has_string val (v ∷ arr)

unfoldable pub match_filter : Envelope → Filter → Bool
match_filter ev f = matches ev.event_type f.types && matches ev.source f.sources

-- The goroutines that one event starts.
unfoldable pub goroutines : Envelope → List (ℤ × Filter) → List (ℤ × Envelope)
unfolding match_filter
goroutines ev [] = []
goroutines ev ((id, f) ∷ subs) =
    let rest = goroutines ev subs in if match_filter ev f then (id, ev) ∷ rest else rest

-- One round of the loop that hands out events, oldest first.
abbrev pub dispatched : MemoryBus → List Envelope → MemoryBus
unfolding goroutines
dispatched bus [] = bus
dispatched bus (ev ∷ rest) = record bus {
  buffer = rest;
  started = bus.started ++ goroutines ev bus.subscribers;
}

unfoldable pub dispatch : MemoryBus → MemoryBus
unfolding dispatched
dispatch bus = dispatched bus bus.buffer

-- A goroutine looks at its subscriber's context, and ends if that is done.
abbrev pub entered_unless : MemoryBus → ℤ → Envelope → Option (Unit {0}) → MemoryBus
entered_unless bus id ev (some _) = bus
entered_unless bus id ev none = record bus { entered = (id, ev) ∷ bus.entered }

unfoldable pub check_context : MemoryBus → ℤ → Envelope → MemoryBus
check_context bus id ev = entered_unless bus id ev (lookup id bus.cancelled)

-- Past that look it calls the handler, whatever has become of the subscriber since.
unfoldable pub call_handler : MemoryBus → ℤ → Envelope → MemoryBus
call_handler bus id ev = record bus {
  handled = (id, ev) ∷ bus.handled;
  finishing = (id, ev) ∷ bus.finishing;
}

unfoldable pub count_consumed : MemoryBus → MemoryBus
count_consumed bus = record bus {
  stats = record (bus.stats) { consumed = (bus.stats.consumed + 1) % 2 ^ 64 };
}

-- The context of a subscription also ends when the caller's does.
unfoldable pub cancel : MemoryBus → ℤ → MemoryBus
cancel bus id = record bus { cancelled = insert id tt bus.cancelled }

abbrev pub unsubscribed : MemoryBus → ℤ → Option Filter → MemoryBus
unsubscribed bus id none = bus
unsubscribed bus id (some _) = record bus {
  cancelled = insert id tt bus.cancelled;
  subscribers = delete id bus.subscribers;
}

unfoldable pub unsubscribe : MemoryBus → ℤ → MemoryBus
unsubscribe bus id = unsubscribed bus id (lookup id bus.subscribers)
