-- ===== src/Processors/TravelTime/Sound.antt =====
-- The travel times that processors/transit/travel_time_events sends, whatever the store holds.
use tpm_go.Prelude.{◌≢◌, Bool, true, false, Option, none, some, List, All, arith}
use tpm_go.Prelude.Int.{ℤ, pos, ◌<ℤ◌}
use tpm_go.Events.Timestamp.{TimeOps}
use tpm_go.Events.Attributes
use tpm_go.Events.Stop.{EventType, arrival, StopEvent}
use tpm_go.Events.TravelTime.{TravelTimeEvent}
use tpm_go.StateStore.Interface.{StateStore}
use tpm_go.Processors.Element.{Element, All-run_stream, as_stop_event, new_stop_event}
use tpm_go.Processors.TravelTime.{
  travel_time_event, stop_of, key_of, arrive, process_type, process, do_stream,
}
use tpm_go.Prelude.Text.{eq_iff}

abbrev IsTravel : TravelTimeEvent → Type 0
IsTravel h =
    (pos 0 <ℤ h.travel_time_seconds)
    × (Attributes.get_origin_stop_id h.attributes ≢ Attributes.get_destination_stop_id h.attributes)

module _ (T : TimeOps) (S : StateStore) where
  arrive-IsTravel :
      (u : ℤ) (last : Option StopEvent) (found : Bool) (event : StopEvent) (s : S.State)
      → All IsTravel (arrive T S u last found event s).1
  unfolding arrive travel_time_event
  arrive-IsTravel u none false event s = tt
  arrive-IsTravel u none true event s = tt
  arrive-IsTravel u (some last) found event s =
      ground (arith, eq_iff (stop_of last) (stop_of event))

  process_type-IsTravel :
      (x : EventType) (t u : ℤ) (event : StopEvent) (s : S.State)
      → All IsTravel (process_type T S x t u event s).1
  unfolding process_type
  process_type-IsTravel arrival t u event s =
      let (state, found) = S.get t (key_of event) new_stop_event s in
      arrive-IsTravel u (as_stop_event state) found event s
  process_type-IsTravel _ t u event s = tt

  process-IsTravel :
      (t u : ℤ) (event : Option StopEvent) (s : S.State) → All IsTravel (process T S t u event s).1
  unfolding process
  process-IsTravel t u none s = tt
  process-IsTravel t u (some event) s = process_type-IsTravel event.stop_event_type t u event s

  -- Every travel time that is sent is positive, and is between two different stops: for any
  -- elements, any store and any operations on time.
  do_stream-IsTravel :
      (es : List (ℤ × ℤ × Element StopEvent)) (s : S.State) → All IsTravel (do_stream T S es s).1
  unfolding do_stream
  do_stream-IsTravel = All-run_stream (process T S) IsTravel process-IsTravel
