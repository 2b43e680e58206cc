-- ===== src/Tests/Channels.antt =====
-- A run of the headway processor's goroutines, and an instance of the theorem on runs.
use tpm_go.Prelude.{◌≡◌, ◌⊎◌, ◌≤◌, ◌+◌, ◌*◌, refl, true, false, some, none, List, [], ◌∷◌, length}
use tpm_go.Prelude.Int.{ℤ, pos, ◌+ℤ◌, ◌-ℤ◌, ◌*ℤ◌}
use tpm_go.Prelude.Text.{◌<>◌}
use tpm_go.Events.Timestamp.{sub}
use tpm_go.Events.Stop.{departure, StopEvent}
use tpm_go.Events.Headway.{HeadwayTimeEvent}
use tpm_go.StateStore.InMemory.{InMemoryStateStore, get, set}
use tpm_go.StateStore.InMemory.Laws.{in_memory}
use tpm_go.Processors.Element.{Element, message, run_stream}
use tpm_go.Processors.Headway.{key_of, headway_event, process}
use tpm_go.Processors.Channels.{
  Channels, turn, Step, reads, sends, finishes, relays, closes, Run, stay, then_run, start,
}
use tpm_go.Processors.Channels.Ends.{IsReceived, Run-ends}
use tpm_go.Tests.Base.{exact, empty_store, stop_event}

abbrev first : ℤ × ℤ × Element StopEvent
first = (pos 1, pos 1, message (some (stop_event departure "v1" "A" 100)))

abbrev second : ℤ × ℤ × Element StopEvent
second = (pos 2, pos 2, message (some (stop_event departure "v2" "A" 400)))

abbrev elements : List (ℤ × ℤ × Element StopEvent)
elements = first ∷ second ∷ []

abbrev headway : HeadwayTimeEvent
headway =
    headway_event exact (stop_event departure "v1" "A" 100) (stop_event departure "v2" "A" 400)

abbrev finished : Channels InMemoryStateStore StopEvent HeadwayTimeEvent
finished = record {
  input = [];
  state =
      (turn (process exact in_memory) second
        (turn (process exact in_memory) first empty_store).0).0;
  pending = [];
  out_closed = true;
  held = none;
  received = headway ∷ [];
  inlet_closed = true;
  cancelled = false;
}

six_steps : Run (process exact in_memory) (start elements empty_store) 6 finished
unfolding turn process key_of headway_event get set sub ◌+ℤ◌ ◌-ℤ◌ ◌*ℤ◌ ◌<>◌
six_steps = then_run (reads first (second ∷ []) refl refl refl) (
    then_run (reads second [] refl refl refl) (
      then_run (sends headway [] refl refl) (
        then_run (relays headway refl)
          (then_run (finishes refl refl refl) (then_run (closes refl refl refl) stay)))))

Run-ends_example :
    (6
      ≤ length elements
        + 2 * length (run_stream (process exact in_memory) elements empty_store).1
        + 2)
    × ((true ≡ true)
        ⊎ ((z : Channels InMemoryStateStore StopEvent HeadwayTimeEvent) × Step
              (process exact in_memory)
              finished
              z))
    × IsReceived
        (process exact in_memory)
        (run_stream (process exact in_memory) elements empty_store).1
        finished
Run-ends_example = Run-ends (process exact in_memory) elements empty_store six_steps
