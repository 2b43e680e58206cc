-- ===== src/Tests/Flows.antt =====
-- Flows like those of go-streams, a pipeline over them, and instances of the theorems on `Run`.
use tpm_go.Prelude.{
  ◌≡◌, refl, Bool, true, String, Option, some, none, List, [], ◌∷◌, ◌++◌, map, if◌then◌else◌,
}
use mathlib.Core.Option
use tpm_go.Prelude.Int.{ℤ, pos, ◌+ℤ◌}
use tpm_go.Prelude.Merge.{IsMerge, IsMerged}
use tpm_go.Events.Attributes.{stopped_at, in_transit_to, EventAttributes}
use tpm_go.Events.Message.{vehicle_position, stop}
use tpm_go.Events.Stop.{departure, StopEvent}
use tpm_go.StateStore.Interface.{typed}
use tpm_go.StateStore.InMemory.{InMemoryStateStore, get, set}
use tpm_go.StateStore.InMemory.Laws.{in_memory, live, in_memory-StoreLaws}
use tpm_go.Prelude.Text.{◌==◌}
use tpm_go.Processors.StopEvents.{
  make_stop_event, receive, do_stream, process, transitions, compare_with, previous_attributes,
}
use tpm_go.Processors.StopEvents.Shared.{decoded}
use tpm_go.Processors.Keyed.Shards.{share}
use tpm_go.Processors.StopEvents.Journey.{position}
use tpm_go.Processors.StopEvents.About.{about}
use tpm_go.Pipelines.{stop_event_processor, Pipeline}
use tpm_go.Sinks.Turns.{transmit}
use tpm_go.Pipelines.Items.{Item, event, as_position, seen_as}
use tpm_go.Pipelines.Flows.{Libraries, through}
use tpm_go.Pipelines.Run.{Streams, StreamsLaws, copies, run}
use tpm_go.Pipelines.Run.Order.{run-one_source}
use tpm_go.Tests.Base.{exact, empty_store, seen}
use tpm_go.Tests.Graphs.{makers}
use tpm_go.Graphs.Running.{run_all, all_turns}
use tpm_go.Graphs.Running.Shared.{run_all-shared}
use tpm_go.Sinks.Turns.{Turn, play}
use tpm_go.Tests.Positions.{bindings, unmarshal}

abbrev pub libraries : Libraries
libraries = record {
  time = exact;
  gtfs = bindings;
  widen = λ n. n;
  unmarshal_feed = unmarshal;
  unmarshal_position = λ b. none;
}

abbrev append_all : {A : Type 0} → List (List A) → List A
append_all [] = []
append_all (xs ∷ xss) = xs ++ append_all xss

-- Flows that take one source after the other.
abbrev flows : Streams (ℤ × ℤ × Item bindings) (Item bindings)
flows = record { pass_through = λ xs. xs; merge = append_all; fan_out = copies; to = transmit }

append-IsMerge : {A : Type 0} (xs ys : List A) → IsMerge xs ys (xs ++ ys)
append-IsMerge [] [] = IsMerge.done
append-IsMerge [] (y ∷ ys) = IsMerge.right (append-IsMerge [] ys)
append-IsMerge (x ∷ xs) ys = IsMerge.left (append-IsMerge xs ys)

append_all-IsMerged : {A : Type 0} (xss : List (List A)) → IsMerged xss (append_all xss)
append_all-IsMerged [] = IsMerged.none_left
append_all-IsMerged (xs ∷ xss) =
    IsMerged.one_more (append_all-IsMerged xss) (append-IsMerge xs (append_all xss))

flows-StreamsLaws : StreamsLaws flows
flows-StreamsLaws = record {
  passes = λ xs. refl;
  merges = append_all-IsMerged;
  fans_out = λ ys n. refl;
  drains = λ ys. refl;
}

-- A position of a vehicle, read in the turn at one instant.
abbrev read_at : ℤ → EventAttributes → ℤ × ℤ × Item bindings
read_at t a = (t, t, event (vehicle_position (some (position a 0 0))))

-- Two sources with a vehicle each.
abbrev output : String → List (ℤ × ℤ × Item bindings)
output source =
    if source == "one"
    then read_at (pos 1) (seen "v" stopped_at "A")
      ∷ read_at (pos 3) (seen "v" in_transit_to "B")
      ∷ []
    else read_at (pos 2) (seen "w" stopped_at "B")
      ∷ read_at (pos 4) (seen "w" in_transit_to "C")
      ∷ []

abbrev pipeline : Pipeline makers
pipeline = record {
  id = "stops";
  agency_id = "MBTA";
  pipeline_type = "stop_event";
  sources = "one" ∷ "two" ∷ [];
  state_store = none;
  sinks = "log" ∷ "sse" ∷ [];
  processor = some (stop_event_processor "memory");
}

abbrev departures_of_both : List (Item bindings)
departures_of_both =
    event (stop (make_stop_event (some (position (seen "v" in_transit_to "B") 0 0)) "A" departure))
    ∷ event
        (stop (make_stop_event (some (position (seen "w" in_transit_to "C") 0 0)) "B" departure))
    ∷ []

-- Both sinks get the two departures.
both_sinks :
    Option.map (λ r. r.1) (run makers libraries in_memory flows output pipeline empty_store)
    ≡ some (("log", transmit departures_of_both) ∷ ("sse", transmit departures_of_both) ∷ [])
unfolding transmit run through seen_as as_position receive make_stop_event transitions compare_with
    previous_attributes do_stream process get set ◌+ℤ◌
both_sinks = refl

abbrev is_w : String → Bool
is_w k = k == "w"

run-one_source_example :
    (sent : List (Option StopEvent)) × (s' : InMemoryStateStore) × (run makers libraries in_memory
        flows output pipeline empty_store
      ≡ some (
        s',
        map (λ sink. (sink, transmit (map (λ e. event (stop e)) sent))) ("log" ∷ "sse" ∷ []),
      ))
    × (about is_w sent
        ≡ about is_w
            (do_stream in_memory libraries.unmarshal_position
              (seen_as as_position (output "two"))
              empty_store).1)
run-one_source_example =
    run-one_source makers libraries in_memory live (typed in_memory-StoreLaws) flows
      flows-StreamsLaws output is_w pipeline "memory" ("one" ∷ []) "two" [] empty_store refl refl
      (unfold share decoded seen_as as_position receive in refl, tt) tt

-- Two pipelines with the same two sinks.
abbrev is_log : String → Bool
is_log sink = sink == "log"

abbrev to_log : List (List (Turn (Item bindings)))
to_log =
    all_turns is_log (
      run_all makers libraries in_memory flows output (λ p. empty_store) (pipeline ∷ pipeline ∷ []))

run_all-shared_example : play (append_all to_log) true ≡ none
run_all-shared_example =
    run_all-shared makers libraries in_memory flows flows-StreamsLaws output (λ p. empty_store)
      is_log [] pipeline [] pipeline [] (stop_event_processor "memory")
      (stop_event_processor "memory") (append_all to_log) refl refl refl refl
      (append_all-IsMerged to_log)
