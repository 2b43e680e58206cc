-- ===== src/Tests/Headways.antt =====
-- Departures at a stop, their headways, and instances of the theorems on headways.
use tpm_go.Prelude.{ℕ, ◌≡◌, ◌≢◌, refl, String, some, [], ◌∷◌, arith}
use tpm_go.Events.Attributes.{zero_attributes}
use tpm_go.Processors.Element.{message}
use tpm_go.Events.Timestamp.Elapsed.{at_second}
use tpm_go.Prelude.Int.{pos, ◌+ℤ◌, ◌-ℤ◌, ◌*ℤ◌}
use tpm_go.Prelude.Text.{◌<>◌}
use tpm_go.Events.Timestamp.{sub}
use tpm_go.Events.Stop.{departure, StopEvent}
use tpm_go.Events.Message.{stop}
use tpm_go.StateStore.Interface.{typed}
use tpm_go.StateStore.InMemory.{InMemoryStateStore, get, set}
use tpm_go.StateStore.InMemory.Laws.{in_memory, live, in_memory-StoreLaws}
use tpm_go.Processors.Headway.{key_of, headway_event, process, do_stream}
use tpm_go.Processors.Headway.Service.{
  Turns, elements, IsService, over, next, pass, headways, do_stream-headways,
}
use tpm_go.Processors.Headway.Keys.{do_stream-shared_key}
use tpm_go.Tests.Base.{
  empty_store, stamp, exact, exact-TimeLaws, store_with, live-store_with, stop_event,
}

headway_runs : Unit {0}
unfolding process do_stream key_of headway_event get set sub ◌+ℤ◌ ◌-ℤ◌ ◌*ℤ◌ ◌<>◌
headway_runs = tt

abbrev first : StopEvent
first = stop_event departure "v1" "A" 100

-- The second vehicle is seen twice; only its first departure counts.
abbrev turns : Turns
turns =
    (pos 1, pos 1, stop_event departure "v2" "A" 400, 400)
    ∷ (pos 2, pos 2, stop_event departure "v2" "A" 430, 430)
    ∷ (pos 3, pos 3, stop_event departure "v3" "A" 900, 900)
    ∷ []

abbrev start : InMemoryStateStore
start = store_with (some (stop (some first))) (pos 10)

two_headways :
    (do_stream exact in_memory (elements turns) start).1
    ≡ headway_event exact first (stop_event departure "v2" "A" 400)
      ∷ headway_event exact (stop_event departure "v2" "A" 400) (stop_event departure "v3" "A" 900)
      ∷ []
unfolding headway_runs
two_headways = refl

turns-IsService : IsService exact (key_of first) (pos 10) first 100 turns
unfolding key_of ◌<>◌ ◌+ℤ◌ ◌*ℤ◌
turns-IsService =
    next refl refl refl (omega arith) (refl, omega arith)
      (pass refl refl refl (omega arith) (refl, omega arith)
        (next refl refl refl (omega arith) (refl, omega arith) over))

do_stream-headways_example :
    (do_stream exact in_memory (elements turns) start).1 ≡ headways exact first 100 turns
unfolding ◌+ℤ◌ ◌*ℤ◌
do_stream-headways_example =
    do_stream-headways exact exact-TimeLaws in_memory live (typed in_memory-StoreLaws)
      (key_of first) (pos 10) first 100 turns start
      (λ w h. live-store_with (some (stop (some first))) (pos 10) w (key_of first) h)
      (refl, omega arith) turns-IsService

-- A departure of a route in a direction.
abbrev leaves : String → String → String → String → ℕ → StopEvent
leaves route direction stop_id vehicle n = record {
  attributes = some (record zero_attributes {
    vehicle_id = vehicle;
    route_id = route;
    direction_id = direction;
    stop_id = stop_id;
    timestamp = some (stamp (at_second n));
  });
  stop_event_type = departure;
}

-- The route CR-1 at the stop S, and the route CR at the stop 0-S.
do_stream-shared_key_example :
    ("S" ≢ "0" <> "-" <> "S")
    × ((do_stream exact in_memory
          ((pos 1, pos 1, message (some (leaves ("CR" <> "-" <> "1") "0" "S" "v1" 100)))
            ∷ (pos 2, pos 2, message (some (leaves "CR" "1" ("0" <> "-" <> "S") "v2" 160)))
            ∷ [])
          empty_store).1
        ≡ headway_event exact
            (leaves ("CR" <> "-" <> "1") "0" "S" "v1" 100)
            (leaves "CR" "1" ("0" <> "-" <> "S") "v2" 160)
          ∷ [])
unfolding ◌+ℤ◌ ◌*ℤ◌
do_stream-shared_key_example =
    do_stream-shared_key exact exact-TimeLaws in_memory live (typed in_memory-StoreLaws) "CR" "1"
      "0" "S" (leaves ("CR" <> "-" <> "1") "0" "S" "v1" 100)
      (leaves "CR" "1" ("0" <> "-" <> "S") "v2" 160) 100 160 (pos 1) (pos 1) (pos 2) (pos 2)
      empty_store (refl, refl, refl, refl) (refl, refl, refl, refl) refl (refl, omega arith)
      (refl, omega arith) (omega arith) (omega arith) refl
