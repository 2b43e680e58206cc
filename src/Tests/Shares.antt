-- ===== src/Tests/Shares.antt =====
-- Instances of the processors that share vehicles or stops out, and of the theorems on them.
use tpm_go.Prelude.{◌≡◌, refl, Bool, String, some, List, [], ◌∷◌}
use tpm_go.Prelude.Int.{ℤ, pos, ◌+ℤ◌, ◌-ℤ◌, ◌*ℤ◌}
use tpm_go.Prelude.Text.{◌==◌, ◌<>◌}
use tpm_go.Prelude.Merge.{IsMerge}
use tpm_go.Events.Timestamp.{sub}
use tpm_go.Events.Attributes.{stopped_at, in_transit_to}
use tpm_go.Events.Stop.{departure, StopEvent}
use tpm_go.StateStore.Interface.{typed}
use tpm_go.StateStore.InMemory.{get, set}
use tpm_go.StateStore.InMemory.Laws.{in_memory, live, in_memory-StoreLaws}
use tpm_go.Processors.Element.{Element, message, bytes}
use tpm_go.Processors.Headway
use tpm_go.Processors.Headway.{key_of, headway_event, process}
use tpm_go.Processors.Headway.Machine.{react, headways-machine}
use tpm_go.Processors.Keyed.Machine.{machine, events_of}
use tpm_go.Processors.Keyed.Shards.{share, others}
use tpm_go.Processors.StopEvents
use tpm_go.Processors.StopEvents.Shared.{Elements, vehicle, decoded, stop_events-IsMerge}
use tpm_go.Processors.StopEvents.About.{about}
use tpm_go.Processors.StopEvents.Reference.{reference, positions_of, do_stream-reference}
use tpm_go.Processors.StopEvents.Journey.{position}
use tpm_go.Events.VehiclePosition.{VehiclePositionEvent}
use tpm_go.Tests.Base.{exact, empty_store, stop_event, seen}
use tpm_go.Prelude.{Option, none, ℕ}

-- The stop A, by its key, and the vehicle v.
abbrev at_a : String → Bool
at_a k = k == "Red-0-A"

abbrev is_v : String → Bool
is_v k = k == "v"

-- Two vehicles leave one stop and then another.
abbrev departures : List (ℤ × ℤ × Element StopEvent)
departures =
    (pos 1, pos 1, message (some (stop_event departure "v1" "A" 100)))
    ∷ (pos 2, pos 2, message (some (stop_event departure "v1" "B" 200)))
    ∷ (pos 3, pos 3, message (some (stop_event departure "v2" "A" 400)))
    ∷ (pos 4, pos 4, message (some (stop_event departure "v2" "B" 600)))
    ∷ []

-- The instance for the stop A sends one of the two headways.
at_a_only :
    (Headway.do_stream exact in_memory (share key_of at_a departures) empty_store).1
    ≡ headway_event exact (stop_event departure "v1" "A" 100) (stop_event departure "v2" "A" 400)
      ∷ []
unfolding Headway.do_stream process key_of headway_event share get set sub ◌+ℤ◌ ◌-ℤ◌ ◌*ℤ◌ ◌<>◌
at_a_only = refl

headways-machine_example :
    IsMerge
      (machine (react exact) none (events_of key_of "Red-0-A" departures))
      (Headway.do_stream exact in_memory
        (share key_of (others (λ j. j == "Red-0-A")) departures)
        empty_store).1
      (Headway.do_stream exact in_memory departures empty_store).1
headways-machine_example =
    headways-machine exact in_memory live (typed in_memory-StoreLaws) "Red-0-A" departures
      empty_store none (λ w. refl)

abbrev unmarshal : List ℕ → Option VehiclePositionEvent
unmarshal [] = none
unmarshal _ = some (position (seen "v" in_transit_to "B") 0 0)

-- Two vehicles, of which one position comes in bytes.
abbrev two_vehicles : Elements
two_vehicles =
    (pos 1, pos 1, message (some (position (seen "v" stopped_at "A") 0 0)))
    ∷ (pos 2, pos 2, message (some (position (seen "w" stopped_at "B") 0 0)))
    ∷ (pos 3, pos 3, message (some (position (seen "w" in_transit_to "C") 0 0)))
    ∷ (pos 4, pos 4, bytes (1 ∷ []))
    ∷ []

stop_events-IsMerge_example :
    IsMerge
      (StopEvents.do_stream in_memory unmarshal
        (share vehicle is_v (decoded unmarshal two_vehicles))
        empty_store).1
      (StopEvents.do_stream in_memory unmarshal
        (share vehicle (others is_v) (decoded unmarshal two_vehicles))
        empty_store).1
      (StopEvents.do_stream in_memory unmarshal two_vehicles empty_store).1
stop_events-IsMerge_example =
    stop_events-IsMerge in_memory live (typed in_memory-StoreLaws) unmarshal is_v two_vehicles
      empty_store empty_store empty_store (λ k h w. refl) (λ k h w. refl)

-- What the machine for the vehicle w makes of its two positions.
from_b :
    reference none (positions_of "w" (decoded unmarshal two_vehicles))
    ≡ StopEvents.make_stop_event (some (position (seen "w" in_transit_to "C") 0 0)) "B" departure
      ∷ []
unfolding reference positions_of decoded StopEvents.receive StopEvents.transitions ◌+ℤ◌
from_b = refl

do_stream-reference_example :
    about (λ k. k == "w") (StopEvents.do_stream in_memory unmarshal two_vehicles empty_store).1
    ≡ about (λ k. k == "w") (reference none (positions_of "w" (decoded unmarshal two_vehicles)))
do_stream-reference_example =
    do_stream-reference in_memory live (typed in_memory-StoreLaws) "w" refl unmarshal two_vehicles
      empty_store none (λ w. refl)
