-- ===== src/Tests/Dwells.antt =====
-- Arrivals and departures, their dwell times, and instances of the theorems on dwell times.
use tpm_go.Prelude.{◌≡◌, refl, none, some, List, [], ◌∷◌, arith, ltb, if◌then◌else◌}
use tpm_go.Prelude.Int.{ℤ, pos, ◌+ℤ◌, ◌-ℤ◌, ◌*ℤ◌}
use tpm_go.Prelude.Text.{◌<>◌, ◌==◌}
use tpm_go.Events.Timestamp.{sub}
use tpm_go.Events.Stop.{arrival, departure, StopEvent}
use tpm_go.StateStore.Interface.{typed}
use tpm_go.StateStore.InMemory.{InMemoryStateStore, get, set, delete}
use tpm_go.StateStore.InMemory.Laws.{in_memory, live, in_memory-StoreLaws}
use tpm_go.Processors.Element.{Element, message, bytes}
use tpm_go.Processors.Dwell.{key_of, dwell_event, process, do_stream}
use tpm_go.Processors.Dwell.Pairing.{arrival-departure}
use tpm_go.Processors.Dwell.Count
use tpm_go.Processors.Dwell.Machine.{react, dwells-machine}
use tpm_go.Processors.Keyed.Machine.{machine, events_of}
use tpm_go.Processors.Keyed.Shards.{share, others}
use tpm_go.Prelude.Merge.{IsMerge}
use tpm_go.Tests.Base.{exact, exact-TimeLaws, empty_store, stop_event}

dwells : Unit {0}
unfolding process do_stream key_of dwell_event get set delete sub ◌+ℤ◌ ◌-ℤ◌ ◌*ℤ◌ ◌<>◌
dwells = tt

abbrev arrived : StopEvent
arrived = stop_event arrival "v" "A" 100

abbrev departed : StopEvent
departed = stop_event departure "v" "A" 130

-- A departure from the stop, another that finds nothing, and an arrival at another stop.
abbrev turns : Count.Turns
turns = (pos 1, pos 1, arrived) ∷ (pos 2, pos 2, departed) ∷ (pos 3, pos 3, departed) ∷ []

one_dwell :
    (do_stream exact in_memory (Count.elements turns) empty_store).1
    ≡ dwell_event exact arrived departed ∷ []
unfolding dwells
one_dwell = refl

thirty_seconds : (dwell_event exact arrived departed).dwell_time_seconds ≡ pos 30
unfolding dwells
thirty_seconds = refl

abbrev elements : List (ℤ × ℤ × Element StopEvent)
elements = Count.elements turns

-- The machine for the arrival's key sends the one dwell time.
machine_dwell :
    machine (react exact) none (events_of key_of "-Red-A-0-v" elements)
    ≡ dwell_event exact arrived departed ∷ []
unfolding machine events_of react dwells
machine_dwell = refl

dwells-machine_example :
    IsMerge
      (machine (react exact) none (events_of key_of "-Red-A-0-v" elements))
      (do_stream exact in_memory
        (share key_of (others (λ j. j == "-Red-A-0-v")) elements)
        empty_store).1
      (do_stream exact in_memory elements empty_store).1
dwells-machine_example =
    dwells-machine exact in_memory live (typed in_memory-StoreLaws) "-Red-A-0-v" elements
      empty_store none (λ w. refl)

-- An arrival at another stop between the two.
abbrev between : List (ℤ × ℤ × Element StopEvent)
between =
    (pos 1, pos 1, message (some (stop_event arrival "w" "B" 110))) ∷ (pos 1, pos 1, bytes []) ∷ []

abbrev before : InMemoryStateStore
before =
    (do_stream exact in_memory ((pos 1, pos 1, message (some arrived)) ∷ between) empty_store).0

arrival-departure_example :
    let (after, sent) = process exact in_memory (pos 2) (pos 2) (some departed) before in
    (sent ≡ (if ltb 130 100 then [] else dwell_event exact arrived departed ∷ []))
    × ((dwell_event exact arrived departed).dwell_time_seconds ≡ pos 130 -ℤ pos 100)
    × ((w : ℤ) → live w (key_of arrived) after ≡ none)
unfolding key_of ◌<>◌ ◌+ℤ◌ ◌*ℤ◌
arrival-departure_example =
    arrival-departure exact in_memory live (typed in_memory-StoreLaws) exact-TimeLaws (pos 1)
      (pos 1) (pos 2) (pos 2) arrived departed 100 130 between empty_store refl refl refl
      (omega arith) (refl, omega arith) (refl, omega arith) (refl, tt)
