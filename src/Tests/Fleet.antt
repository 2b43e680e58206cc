-- ===== src/Tests/Fleet.antt =====
-- Two vehicles at one stop, and the headway between them.
use tpm_go.Prelude.{◌≡◌, ◌≤◌, ℕ, refl, Option, none, some, List, [], ◌∷◌, arith, String, false}
use tpm_go.Prelude.Int.{ℤ, pos, ◌+ℤ◌, ◌-ℤ◌, ◌*ℤ◌, ◌≤ℤ◌, le→ltb_ℤ}
use tpm_go.Events.Timestamp.{hour}
use tpm_go.Events.Timestamp.Elapsed.{at_second, IsInEra}
use tpm_go.Events.Attributes.{StopStatus, stopped_at, in_transit_to}
use tpm_go.Events.VehiclePosition.{VehiclePositionEvent}
use tpm_go.Events.Message.{vehicle_position}
use tpm_go.StateStore.Interface.{typed}
use tpm_go.StateStore.InMemory.{InMemoryStateStore}
use tpm_go.StateStore.InMemory.Laws.{in_memory, live, in_memory-StoreLaws}
use tpm_go.Processors.StopEvents
use tpm_go.Processors.StopEvents.Machine.{Named}
use tpm_go.Processors.StopEvents.Journey.{position, elements}
use tpm_go.Processors.Headway
use tpm_go.Trips.{Sighting, IsSeen, IsVisit, positions, deliver, instants}
use tpm_go.Trips.Fleet.{Bus, visits_of, AllShow, IsFleet}
use tpm_go.Trips.Headways.{summaries, IsNext, headways-fleet}
use tpm_go.Tests.Base.{exact, exact-TimeLaws, empty_store, seen, stamp}

abbrev sighting : String → StopStatus → String → ℕ → Sighting
sighting v status stop n = record {
  t = at_second n;
  u = at_second n;
  attrs = record (seen v status stop) { timestamp = some (stamp (at_second n)) };
  lat = 0;
  long = 0;
}

-- At the stop A from the second `m` to the second `n`.
abbrev bus : (v : String) → Named v → ℕ → ℕ → Bus
bus v named m n = record {
  vehicle = v;
  named = named;
  end = at_second 1000;
  last = seen v in_transit_to "A";
  visit = record {
    approach = [];
    arrive = sighting v stopped_at "A" m;
    stays = [];
    leave = sighting v in_transit_to "B" n;
    m = m;
    n = n;
    read_arrival = (at_second m, at_second m);
    read_departure = (at_second n, at_second n);
  };
}

sighting-IsSeen :
    (v : String) (status : StopStatus) (stop : String) (end : ℤ) (n : ℕ)
    → at_second n ≤ℤ end
    → IsInEra n
    → IsSeen exact v status end n (sighting v status stop n)
unfolding ◌+ℤ◌ ◌*ℤ◌
sighting-IsSeen v status stop end n soon era = record {
  vehicle = refl;
  stop_status = refl;
  soon = soon;
  instant = ground arith;
  era = era;
}

abbrev first : Bus
first = bus "v" refl 100 130

abbrev second : Bus
second = bus "w" refl 300 340

bus-IsVisit :
    (v : String) (named : Named v) (m n : ℕ)
    → m ≤ n
    → n ≤ 1000
    → at_second n ≤ℤ at_second m +ℤ hour
    → IsVisit exact v (at_second 1000) (bus v named m n).last (bus v named m n).visit
unfolding ◌+ℤ◌
bus-IsVisit v named m n order small soon = record {
  named = refl;
  moving = refl;
  approach = tt;
  arrive = sighting-IsSeen v stopped_at "A" _ m (omega arith) (omega arith);
  at = refl;
  stays = tt;
  leave = sighting-IsSeen v in_transit_to "B" _ n soon (omega arith);
  same_agency = refl;
  same_route = refl;
  same_direction = refl;
  ordered = order;
  read_soon = soon;
}

both-IsFleet : IsFleet exact (first ∷ second ∷ [])
unfolding ◌+ℤ◌
both-IsFleet = (
  bus-IsVisit "v" refl 100 130 (omega arith) (omega arith) (omega arith),
  (refl, tt),
  (bus-IsVisit "w" refl 300 340 (omega arith) (omega arith) (omega arith), tt, tt),
)

line : IsNext first second
unfolding ◌+ℤ◌
line = record { route = refl; direction = refl; at = refl; later = omega arith; soon = omega arith }

-- The store shows each vehicle on its way to A.
abbrev start : InMemoryStateStore
start = record {
  ttl = pos 0;
  states = λ k. some (record {
    msg = some (vehicle_position (some (position (seen k in_transit_to "A") 0 0)));
    expiration = at_second 1000;
  });
  done = false;
}

abbrev unmarshal : List ℕ → Option VehiclePositionEvent
unmarshal b = none

both-Show : AllShow in_memory live (typed in_memory-StoreLaws) unmarshal (first ∷ second ∷ []) start
both-Show = (
  (0, 0, λ w h. rw (le→ltb_ℤ (at_second 1000) w h) refl),
  ((0, 0, λ w h. rw (le→ltb_ℤ (at_second 1000) w h) refl), tt),
)

headways-fleet_example :
    let Vs = visits_of (first ∷ second ∷ []) in
    let sent = (StopEvents.do_stream in_memory unmarshal (elements (positions Vs)) start).1 in
    summaries (Headway.do_stream exact in_memory (deliver (instants Vs) sent) empty_store).1
    ≡ ("v", "w", "A", pos 210) ∷ []
unfolding ◌+ℤ◌ ◌-ℤ◌
headways-fleet_example =
    headways-fleet exact exact-TimeLaws in_memory in_memory live live (typed in_memory-StoreLaws)
      (typed in_memory-StoreLaws) unmarshal first (second ∷ []) start empty_store both-Show
      both-IsFleet (line, tt) refl
