-- ===== src/Tests/Base.antt =====
-- Test data: exact operations on time, an in-memory store with one live message, stop events.
use tpm_go.Prelude.{ℕ, ◌≡◌, refl, ◌/◌, ◌%◌, ◌-◌, Option, none, some, String, Bool, arith}
use tpm_go.Prelude.Int.{ℤ, pos, negsuc, pos_part, neg_part, sub_ℕ, ◌+ℤ◌, ◌*ℤ◌, ◌≤ℤ◌, le→ltb_ℤ}
use tpm_go.Events.Timestamp.{Timestamp, TimeOps, TimeLaws, second}
use tpm_go.Events.Timestamp.Elapsed.{at_second}
use tpm_go.Events.Attributes.{StopStatus, EventAttributes, zero_attributes}
use tpm_go.Events.Stop.{EventType, StopEvent}
use tpm_go.Events.Message.{ProtoMessage}
use tpm_go.StateStore.InMemory.{InMemoryStateStore}
use tpm_go.StateStore.InMemory.Laws.{live}

-- Timestamps with the seconds rounded down and the nanoseconds from 0 to 999999999.
abbrev pub stamp : ℤ → Timestamp
stamp (pos n) = record { seconds = pos (n / 1000000000); nanos = pos (n % 1000000000) }
stamp (negsuc n) = record {
  seconds = negsuc (n / 1000000000);
  nanos = pos (999999999 - n % 1000000000);
}

abbrev instant : Option Timestamp → ℤ
instant none = pos 0
instant (some ts) = ts.seconds *ℤ second +ℤ ts.nanos

abbrev pub exact : TimeOps
exact = record {
  as_time = instant;
  new_timestamp = stamp;
  int32_seconds = λ d. sub_ℕ (pos_part d / 1000000000) (neg_part d / 1000000000);
}

instant-stamp : (t : ℤ) → instant (some (stamp t)) ≡ t
unfolding ◌+ℤ◌ ◌*ℤ◌
instant-stamp (pos n) = ground arith
instant-stamp (negsuc n) = ground arith

whole_seconds :
    (n : ℤ) → sub_ℕ (pos_part (n *ℤ second) / 1000000000) (neg_part (n *ℤ second) / 1000000000) ≡ n
unfolding ◌*ℤ◌
whole_seconds (pos n) = ground arith
whole_seconds (negsuc n) = ground arith

pub exact-TimeLaws : TimeLaws exact
exact-TimeLaws = record {
  as_time-new_timestamp = instant-stamp;
  as_time-none = refl;
  int32_seconds-whole = λ n low high. whole_seconds n;
}

abbrev pub empty_store : InMemoryStateStore
empty_store = record { ttl = pos 0; states = λ _. none; done = Bool.false }

-- A store that shows one message under every key until `end`.
abbrev pub store_with : ProtoMessage → ℤ → InMemoryStateStore
store_with m end = record {
  ttl = pos 0;
  states = λ _. some (record { msg = m; expiration = end });
  done = Bool.false;
}

pub live-store_with :
    (m : ProtoMessage) (end w : ℤ) (k : String) → w ≤ℤ end → live w k (store_with m end) ≡ some m
live-store_with m end w k h = rw (le→ltb_ℤ end w h)

-- A stop event of a trip at a second.
abbrev pub stop_event : EventType → String → String → ℕ → StopEvent
stop_event kind vehicle stop n = record {
  attributes = some (record zero_attributes {
    vehicle_id = vehicle;
    route_id = "Red";
    direction_id = "0";
    stop_id = stop;
    trip_id = "t1";
    timestamp = some (stamp (at_second n));
  });
  stop_event_type = kind;
}

-- A position of a vehicle.
abbrev pub seen : String → StopStatus → String → EventAttributes
seen vehicle status stop = record zero_attributes {
  vehicle_id = vehicle;
  stop_status = status;
  stop_id = stop;
}
