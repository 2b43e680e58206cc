-- ===== src/Processors/Headway/Sound.antt =====
-- The headways that processors/transit/headway_events sends, whatever the store holds.
use tpm_go.Prelude.{◌≢◌, Bool, Option, none, some, List, All, arith}
use tpm_go.Prelude.Int.{ℤ, pos, ◌<ℤ◌}
use tpm_go.Events.Timestamp.{TimeOps}
use tpm_go.Events.Stop.{EventType, departure, StopEvent}
use tpm_go.Events.Headway.{HeadwayTimeEvent}
use tpm_go.StateStore.Interface.{StateStore}
use tpm_go.Processors.Element.{Element, All-run_stream, as_stop_event, new_stop_event}
use tpm_go.Processors.Headway.{
  headway_event, vehicle_of, key_of, follow_up, process_type, process, do_stream,
}
use tpm_go.Prelude.Text.{eq_iff}

abbrev IsHeadway : HeadwayTimeEvent → Type 0
IsHeadway h = (pos 0 <ℤ h.headway_seconds) × (h.leading_vehicle_id ≢ h.following_vehicle_id)

module _ (T : TimeOps) (S : StateStore) where
  follow_up-IsHeadway :
      (u : ℤ) (last : Option StopEvent) (found : Bool) (event : StopEvent) (s : S.State)
      → All IsHeadway (follow_up T S u last found event s).1
  unfolding follow_up headway_event
  follow_up-IsHeadway u none found event s = tt
  follow_up-IsHeadway u (some last) found event s =
      ground (arith, eq_iff (vehicle_of last) (vehicle_of event))

  process_type-IsHeadway :
      (x : EventType) (t u : ℤ) (event : StopEvent) (s : S.State)
      → All IsHeadway (process_type T S x t u event s).1
  unfolding process_type
  process_type-IsHeadway departure t u event s =
      let (state, found) = S.get t (key_of event) new_stop_event s in
      follow_up-IsHeadway u (as_stop_event state) found event s
  process_type-IsHeadway _ t u event s = tt

  process-IsHeadway :
      (t u : ℤ) (event : Option StopEvent) (s : S.State) → All IsHeadway (process T S t u event s).1
  unfolding process
  process-IsHeadway t u none s = tt
  process-IsHeadway t u (some event) s = process_type-IsHeadway event.stop_event_type t u event s

  -- Every headway that is sent is positive, and is between two different vehicles: for any
  -- elements, any store and any operations on time.
  do_stream-IsHeadway :
      (es : List (ℤ × ℤ × Element StopEvent)) (s : S.State) → All IsHeadway (do_stream T S es s).1
  unfolding do_stream
  do_stream-IsHeadway = All-run_stream (process T S) IsHeadway process-IsHeadway
