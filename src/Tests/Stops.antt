-- ===== src/Tests/Stops.antt =====
-- Positions of a vehicle, their stop events, and instances of the theorems on them.
use tpm_go.Prelude.{◌≡◌, ◌↔◌, ℕ, refl, Option, none, some, List, [], ◌∷◌, arith}
use tpm_go.Prelude.Int.{pos, ◌+ℤ◌}
use tpm_go.Events.Attributes.{stopped_at, in_transit_to, EventAttributes}
use tpm_go.Events.VehiclePosition.{VehiclePositionEvent}
use tpm_go.Events.Stop.{arrival, departure}
use tpm_go.Events.Message.{vehicle_position}
use tpm_go.StateStore.Interface.{typed}
use tpm_go.StateStore.InMemory.{get, set, InMemoryStateStore}
use tpm_go.StateStore.InMemory.Laws.{in_memory, live, in_memory-StoreLaws}
use tpm_go.Processors.Element.{message}
use tpm_go.Processors.StopEvents.{
  make_stop_event, transitions, compare_with, previous_attributes, receive, process, do_stream,
}
use tpm_go.Processors.StopEvents.Machine.{occupied, follow, IsFollowed, follow-transitions}
use tpm_go.Processors.StopEvents.Journey.{Positions, position, elements, follow-do_stream}
use tpm_go.Processors.StopEvents.Vehicles.{Elements}
use tpm_go.Tests.Base.{empty_store, store_with, live-store_with, seen}

stops : Unit {0}
unfolding make_stop_event transitions compare_with previous_attributes receive process do_stream get
    set follow ◌+ℤ◌
stops = tt

abbrev unmarshal : List ℕ → Option VehiclePositionEvent
unmarshal b = none

abbrev at_a : EventAttributes
at_a = seen "v" stopped_at "A"

abbrev to_b : EventAttributes
to_b = seen "v" in_transit_to "B"

abbrev at_b : EventAttributes
at_b = seen "v" stopped_at "B"

abbrev at_c : EventAttributes
at_c = seen "v" stopped_at "C"

-- From A by B, where it stops, to C, which is reported with no transit.
abbrev trip : Positions
trip = (pos 1, pos 1, to_b, 0, 0) ∷ (pos 2, pos 2, at_b, 0, 0) ∷ (pos 3, pos 3, at_c, 0, 0) ∷ []

abbrev start : InMemoryStateStore
start = store_with (some (vehicle_position (some (position at_a 0 0)))) (pos 10)

trip_events :
    (do_stream in_memory unmarshal (elements trip) start).1
    ≡ make_stop_event (some (position to_b 0 0)) "A" departure
      ∷ make_stop_event (some (position at_b 0 0)) "B" arrival
      ∷ make_stop_event (some (position at_c 0 0)) "B" departure
      ∷ make_stop_event (some (position at_c 0 0)) "C" arrival
      ∷ []
unfolding stops
trip_events = refl

-- A first position sends nothing, and an empty stop makes a nil event.
first_position : (process in_memory (pos 0) (pos 0) (some (position at_a 0 0)) empty_store).1 ≡ []
unfolding stops
first_position = refl

nil_event : make_stop_event (some (position at_a 0 0)) "" arrival ≡ none
unfolding stops
nil_event = refl

follow-transitions_example :
    (follow (occupied stopped_at "A") (transitions at_a at_b (position at_b 0 0))
      ≡ some (occupied stopped_at "B"))
    ↔ IsFollowed stopped_at stopped_at
follow-transitions_example = follow-transitions at_a at_b (position at_b 0 0) refl refl refl refl

follow-do_stream_example :
    follow (occupied stopped_at "A") (do_stream in_memory unmarshal (elements trip) start).1
    ≡ some (occupied stopped_at "C")
follow-do_stream_example =
    follow-do_stream in_memory live (typed in_memory-StoreLaws) unmarshal "v" refl (pos 10) at_a
      trip start refl
      (
        0,
        0,
        λ w h.
            live-store_with (some (vehicle_position (some (position at_a 0 0)))) (pos 10) w "v" h,
      )
      (unfold ◌+ℤ◌ in
        (
          refl,
          refl,
          omega arith,
          tt,
          (refl, refl, omega arith, tt, (refl, refl, omega arith, tt, tt)),
        ))

-- Two vehicles at the same stops.
abbrev two_vehicles : Elements
two_vehicles =
    (pos 1, pos 1, message (some (position at_a 0 0)))
    ∷ (pos 2, pos 2, message (some (position (seen "w" stopped_at "B") 0 0)))
    ∷ (pos 3, pos 3, message (some (position (seen "w" in_transit_to "C") 0 0)))
    ∷ (pos 4, pos 4, message (some (position to_b 0 0)))
    ∷ []
