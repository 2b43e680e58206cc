-- ===== src/Tests/Travels.antt =====
-- Arrivals of a trip, their travel times, and instances of the theorems on travel times.
use tpm_go.Prelude.{◌≡◌, refl, some, [], ◌∷◌, arith}
use tpm_go.Prelude.Int.{pos, ◌+ℤ◌, ◌-ℤ◌, ◌*ℤ◌}
use tpm_go.Prelude.Text.{◌<>◌}
use tpm_go.Events.Timestamp.{sub}
use tpm_go.Events.Stop.{arrival, StopEvent}
use tpm_go.Events.Message.{stop}
use tpm_go.StateStore.Interface.{typed}
use tpm_go.StateStore.InMemory.{InMemoryStateStore, get, set}
use tpm_go.StateStore.InMemory.Laws.{in_memory, live, in_memory-StoreLaws}
use tpm_go.Processors.TravelTime.{key_of, travel_time_event, process, do_stream}
use tpm_go.Processors.TravelTime.Route.{
  Turns, elements, IsRoute, over, leg, stay, legs, IsLinked, total, do_stream-legs,
  do_stream-IsLinked,
}
use tpm_go.Tests.Base.{exact, exact-TimeLaws, store_with, live-store_with, stop_event}

travel_runs : Unit {0}
unfolding process do_stream key_of travel_time_event get set sub ◌+ℤ◌ ◌-ℤ◌ ◌*ℤ◌ ◌<>◌
travel_runs = tt

abbrev first : StopEvent
first = stop_event arrival "v" "A" 100

-- The arrival at B is seen twice.
abbrev turns : Turns
turns =
    (pos 1, pos 1, stop_event arrival "v" "B" 250, 250)
    ∷ (pos 2, pos 2, stop_event arrival "v" "B" 280, 280)
    ∷ (pos 3, pos 3, stop_event arrival "v" "C" 500, 500)
    ∷ []

abbrev start : InMemoryStateStore
start = store_with (some (stop (some first))) (pos 10)

two_legs :
    (do_stream exact in_memory (elements turns) start).1
    ≡ travel_time_event exact first (stop_event arrival "v" "B" 250)
      ∷ travel_time_event exact (stop_event arrival "v" "B" 250) (stop_event arrival "v" "C" 500)
      ∷ []
unfolding travel_runs
two_legs = refl

turns-IsRoute : IsRoute exact (key_of first) (pos 10) first turns
unfolding key_of ◌<>◌ ◌+ℤ◌ ◌*ℤ◌
turns-IsRoute =
    leg refl refl refl (omega arith) (refl, omega arith)
      (stay refl refl refl (omega arith) (refl, omega arith)
        (leg refl refl refl (omega arith) (refl, omega arith) over))

do_stream-legs_example :
    (do_stream exact in_memory (elements turns) start).1 ≡ legs exact first 100 turns
unfolding ◌+ℤ◌ ◌*ℤ◌
do_stream-legs_example =
    do_stream-legs exact exact-TimeLaws in_memory live (typed in_memory-StoreLaws) (key_of first)
      (pos 10) first 100 turns start
      (λ w h. live-store_with (some (stop (some first))) (pos 10) w (key_of first) h)
      (refl, omega arith) turns-IsRoute

do_stream-IsLinked_example :
    IsLinked "A" (do_stream exact in_memory (elements turns) start).1
    × (total (do_stream exact in_memory (elements turns) start).1 ≡ pos 500 -ℤ pos 100)
unfolding ◌+ℤ◌ ◌*ℤ◌
do_stream-IsLinked_example =
    do_stream-IsLinked exact exact-TimeLaws in_memory live (typed in_memory-StoreLaws)
      (key_of first) (pos 10) first 100 turns start
      (λ w h. live-store_with (some (stop (some first))) (pos 10) w (key_of first) h)
      (refl, omega arith) turns-IsRoute refl
