-- ===== src/Tests/Trips.antt =====
-- A vehicle that serves two stops: its dwell times and its travel time.
use tpm_go.Prelude.{◌≡◌, ℕ, refl, Option, none, some, List, [], ◌∷◌, arith, String}
use tpm_go.Prelude.Int.{ℤ, pos, ◌+ℤ◌, ◌-ℤ◌, ◌*ℤ◌, ◌≤ℤ◌}
use tpm_go.Events.Timestamp.{hour}
use tpm_go.Events.Timestamp.Elapsed.{at_second, IsInEra}
use tpm_go.Events.Attributes.{StopStatus, incoming_at, stopped_at, in_transit_to, EventAttributes}
use tpm_go.Events.VehiclePosition.{VehiclePositionEvent}
use tpm_go.Events.Message.{vehicle_position}
use tpm_go.StateStore.Interface.{typed}
use tpm_go.StateStore.InMemory.{InMemoryStateStore}
use tpm_go.StateStore.InMemory.Laws.{in_memory, live, in_memory-StoreLaws}
use tpm_go.Processors.StopEvents
use tpm_go.Processors.StopEvents.Journey.{position, elements}
use tpm_go.Processors.Dwell
use tpm_go.Trips.{Sighting, turn, Visit, IsSeen, IsVisit, positions, deliver, instants}
use tpm_go.Processors.TravelTime
use tpm_go.Trips.Stops.{Showing}
use tpm_go.Trips.Travels
use tpm_go.Trips.Travels.{IsLeg, travel_times-visits}
use tpm_go.Trips.Dwells.{summaries, dwell_times-visits}
use tpm_go.Tests.Base.{exact, exact-TimeLaws, empty_store, store_with, live-store_with, seen, stamp}

abbrev unmarshal : List ℕ → Option VehiclePositionEvent
unmarshal b = none

-- The position of the vehicle v, at a second.
abbrev sighting : StopStatus → String → ℕ → Sighting
sighting status stop n = record {
  t = at_second n;
  u = at_second n;
  attrs = record (seen "v" status stop) { timestamp = some (stamp (at_second n)) };
  lat = 0;
  long = 0;
}

-- To A, where it stops for 30 seconds, then to B, where it stops for 45.
abbrev to_a : EventAttributes
to_a = seen "v" in_transit_to "A"

abbrev at_a : Visit
at_a = record {
  approach = turn (sighting incoming_at "A" 90) ∷ [];
  arrive = sighting stopped_at "A" 100;
  stays = turn (sighting stopped_at "A" 110) ∷ [];
  leave = sighting in_transit_to "B" 130;
  m = 100;
  n = 130;
  read_arrival = (at_second 100, at_second 100);
  read_departure = (at_second 130, at_second 130);
}

abbrev at_b : Visit
at_b = record {
  approach = [];
  arrive = sighting stopped_at "B" 200;
  stays = [];
  leave = sighting in_transit_to "C" 245;
  m = 200;
  n = 245;
  read_arrival = (at_second 200, at_second 200);
  read_departure = (at_second 245, at_second 245);
}

abbrev both : List Visit
both = at_a ∷ at_b ∷ []

abbrev start : InMemoryStateStore
start = store_with (some (vehicle_position (some (position to_a 0 0)))) (at_second 100)

sighting-IsSeen :
    (status : StopStatus) (stop : String) (end : ℤ) (n : ℕ)
    → at_second n ≤ℤ end
    → IsInEra n
    → IsSeen exact "v" status end n (sighting status stop n)
unfolding ◌+ℤ◌ ◌*ℤ◌
sighting-IsSeen status stop end n soon era = record {
  vehicle = refl;
  stop_status = refl;
  soon = soon;
  instant = ground arith;
  era = era;
}

at_a-IsVisit : IsVisit exact "v" (at_second 100) to_a at_a
unfolding ◌+ℤ◌
at_a-IsVisit = record {
  named = refl;
  moving = refl;
  approach = (refl, refl, refl, omega arith, tt);
  arrive = sighting-IsSeen stopped_at "A" _ 100 (omega arith) (omega arith);
  at = refl;
  stays = (refl, refl, refl, omega arith, tt);
  leave = sighting-IsSeen in_transit_to "B" _ 130 (omega arith) (omega arith);
  same_agency = refl;
  same_route = refl;
  same_direction = refl;
  ordered = omega arith;
  read_soon = omega arith;
}

at_b-IsVisit : IsVisit exact "v" (at_second 130 +ℤ hour) at_a.leave.attrs at_b
unfolding ◌+ℤ◌
at_b-IsVisit = record {
  named = refl;
  moving = refl;
  approach = tt;
  arrive = sighting-IsSeen stopped_at "B" _ 200 (omega arith) (omega arith);
  at = refl;
  stays = tt;
  leave = sighting-IsSeen in_transit_to "C" _ 245 (omega arith) (omega arith);
  same_agency = refl;
  same_route = refl;
  same_direction = refl;
  ordered = omega arith;
  read_soon = omega arith;
}

start-Shows :
    Showing in_memory live (typed in_memory-StoreLaws) unmarshal "v" refl (at_second 100) to_a start
start-Shows = (
  0,
  0,
  λ w h.
      live-store_with (some (vehicle_position (some (position to_a 0 0)))) (at_second 100) w "v" h,
)

dwell_times-visits_example :
    let sent = (StopEvents.do_stream in_memory unmarshal (elements (positions both)) start).1 in
    summaries (Dwell.do_stream exact in_memory (deliver (instants both) sent) empty_store).1
    ≡ ("v", "A", pos 30) ∷ ("v", "B", pos 45) ∷ []
unfolding ◌+ℤ◌ ◌-ℤ◌
dwell_times-visits_example =
    dwell_times-visits exact exact-TimeLaws "v" in_memory in_memory live live
      (typed in_memory-StoreLaws) (typed in_memory-StoreLaws) unmarshal refl (at_second 100) to_a
      both start empty_store start-Shows (at_a-IsVisit, (at_b-IsVisit, tt))

onward : IsLeg at_a at_b
unfolding ◌+ℤ◌
onward = record {
  route = refl;
  direction = refl;
  trip = refl;
  elsewhere = refl;
  later = omega arith;
  soon = omega arith;
}

travel_times-visits_example :
    let sent = (StopEvents.do_stream in_memory unmarshal (elements (positions both)) start).1 in
    Travels.summaries
      (TravelTime.do_stream exact in_memory (deliver (instants both) sent) empty_store).1
    ≡ ("v", "A", "B", pos 100) ∷ []
unfolding ◌+ℤ◌ ◌-ℤ◌
travel_times-visits_example =
    travel_times-visits exact exact-TimeLaws "v" in_memory in_memory live live
      (typed in_memory-StoreLaws) (typed in_memory-StoreLaws) unmarshal refl (at_second 100) to_a
      at_a (at_b ∷ []) start empty_store start-Shows (at_a-IsVisit, (at_b-IsVisit, tt)) (onward, tt)
      refl
