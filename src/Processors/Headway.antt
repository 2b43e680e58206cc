-- ===== src/Processors/Headway.antt =====
-- processors/transit/headway_events/headway_event_processor.go. `process` takes the instants at
-- which the store reads the clock, for `Get` and for `Set`, and returns what it sends to `out`.
pub mod Shared
pub mod Machine
pub mod Sound
pub mod Service
pub mod Keys
use tpm_go.Prelude.{Bool, true, false, String, Option, none, some, List, [], ◌∷◌, if◌then◌else◌}
use tpm_go.Prelude.Int.{ℤ, pos, leb_ℤ}
use tpm_go.Prelude.Text.{◌<>◌, ◌==◌}
use tpm_go.Events.Timestamp.{TimeOps, sub, hour}
use tpm_go.Events.Attributes
use tpm_go.Events.Attributes.{zero_attributes}
use tpm_go.Events.Stop.{EventType, departure, StopEvent}
use tpm_go.Events.Headway.{HeadwayTimeEvent}
use tpm_go.Events.Message.{stop}
use tpm_go.StateStore.Interface.{StateStore}
use tpm_go.Processors.Element.{Element, run_stream, as_stop_event, new_stop_event}

pub record HeadwayStopKey : Type 0 where
  pub route_id : String
  pub stop_id : String
  pub direction_id : String

-- fmt.Sprintf("%s-%s-%s", k.routeID, k.directionID, k.stopID)
unfoldable pub key_string : HeadwayStopKey → String
key_string k = k.route_id <> "-" <> k.direction_id <> "-" <> k.stop_id

unfoldable pub key_of : StopEvent → String
unfolding key_string
key_of e = key_string (record {
  route_id = Attributes.get_route_id e.attributes;
  stop_id = Attributes.get_stop_id e.attributes;
  direction_id = Attributes.get_direction_id e.attributes;
})

abbrev pub vehicle_of : StopEvent → String
vehicle_of e = Attributes.get_vehicle_id e.attributes

module _ (T : TimeOps) where
  unfoldable pub headway_seconds : StopEvent → StopEvent → ℤ
  headway_seconds last event = T.int32_seconds (
      sub (T.as_time (Attributes.get_timestamp event.attributes))
        (T.as_time (Attributes.get_timestamp last.attributes)))

  unfoldable pub headway_event : StopEvent → StopEvent → HeadwayTimeEvent
  unfolding headway_seconds
  headway_event last event =
      let a = event.attributes in
      record {
        attributes = some (record zero_attributes {
          agency_id = Attributes.get_agency_id a;
          route_id = Attributes.get_route_id a;
          stop_id = Attributes.get_stop_id a;
          direction_id = Attributes.get_direction_id a;
          service_date = Attributes.get_service_date a;
          timestamp = Attributes.get_timestamp a;
          vehicle_id = Attributes.get_vehicle_id a;
          trip_id = Attributes.get_trip_id a;
          stop_sequence = Attributes.get_stop_sequence a;
        });
        leading_vehicle_id = vehicle_of last;
        following_vehicle_id = vehicle_of event;
        headway_seconds = headway_seconds last event;
      }

  module _ (S : StateStore) where
    open S use {State, get, set}

    store : ℤ → StopEvent → State → State
    store u event s = (set u (key_of event) (some (stop (some event))) hour s).0

    -- From the type assertion on.
    unfoldable pub follow_up :
        ℤ → Option StopEvent → Bool → StopEvent → State → State × List HeadwayTimeEvent
    unfolding store
    follow_up u none found event s = (store u event s, [])
    follow_up u (some last) false event s = (store u event s, [])
    follow_up u (some last) true event s =
        if vehicle_of last == vehicle_of event
        then (s, [])
        else if leb_ℤ (headway_seconds last event) (pos 0)
        then (s, [])
        else (store u event s, headway_event last event ∷ [])

    unfoldable pub process_type :
        EventType → ℤ → ℤ → StopEvent → State → State × List HeadwayTimeEvent
    unfolding follow_up
    process_type departure t u event s =
        let (state, found) = get t (key_of event) new_stop_event s in
        follow_up u (as_stop_event state) found event s
    process_type _ t u event s = (s, [])

    unfoldable pub process : ℤ → ℤ → Option StopEvent → State → State × List HeadwayTimeEvent
    unfolding process_type
    process t u none s = (s, [])
    process t u (some event) s = process_type event.stop_event_type t u event s

    -- The elements of `in`, each with the two instants of its turn.
    unfoldable pub do_stream :
        List (ℤ × ℤ × Element StopEvent) → State → State × List HeadwayTimeEvent
    unfolding run_stream
    do_stream = run_stream process
