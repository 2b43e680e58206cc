-- ===== src/Processors/TravelTime.antt =====
-- processors/transit/travel_time_events/travel_time_event_processor.go. `process` takes the
-- instants at which the store reads the clock, for `Get` and for `Set`, and returns what it sends
-- to `out`.
pub mod Shared
pub mod Machine
pub mod Sound
pub mod Route
use tpm_go.Prelude.{Bool, true, false, String, Option, none, some, List, [], ◌∷◌, if◌then◌else◌}
use tpm_go.Prelude.Int.{ℤ, pos, leb_ℤ}
use tpm_go.Prelude.Text.{◌<>◌, ◌==◌}
use tpm_go.Events.Timestamp.{TimeOps, sub, hour}
use tpm_go.Events.Attributes
use tpm_go.Events.Attributes.{zero_attributes}
use tpm_go.Events.Stop.{EventType, arrival, StopEvent}
use tpm_go.Events.TravelTime.{TravelTimeEvent}
use tpm_go.Events.Message.{stop}
use tpm_go.StateStore.Interface.{StateStore}
use tpm_go.Processors.Element.{Element, run_stream, as_stop_event, new_stop_event}

pub record TripKey : Type 0 where
  pub route_id : String
  pub direction_id : String
  pub vehicle_id : String
  pub trip_id : String

-- fmt.Sprintf("%s-%s-%s-%s", k.routeID, k.directionID, k.vehicleID, k.tripID)
unfoldable pub key_string : TripKey → String
key_string k = k.route_id <> "-" <> k.direction_id <> "-" <> k.vehicle_id <> "-" <> k.trip_id

unfoldable pub key_of : StopEvent → String
unfolding key_string
key_of e = key_string (record {
  route_id = Attributes.get_route_id e.attributes;
  direction_id = Attributes.get_direction_id e.attributes;
  vehicle_id = Attributes.get_vehicle_id e.attributes;
  trip_id = Attributes.get_trip_id e.attributes;
})

abbrev pub stop_of : StopEvent → String
stop_of e = Attributes.get_stop_id e.attributes

module _ (T : TimeOps) where
  unfoldable pub travel_seconds : StopEvent → StopEvent → ℤ
  travel_seconds prev event = T.int32_seconds (
      sub (T.as_time (Attributes.get_timestamp event.attributes))
        (T.as_time (Attributes.get_timestamp prev.attributes)))

  unfoldable pub travel_time_event : StopEvent → StopEvent → TravelTimeEvent
  unfolding travel_seconds
  travel_time_event prev event =
      let a = event.attributes in
      record {
        attributes = some (record zero_attributes {
          agency_id = Attributes.get_agency_id a;
          route_id = Attributes.get_route_id a;
          trip_id = Attributes.get_trip_id a;
          direction_id = Attributes.get_direction_id a;
          vehicle_id = Attributes.get_vehicle_id a;
          service_date = Attributes.get_service_date a;
          origin_stop_id = stop_of prev;
          destination_stop_id = stop_of event;
          timestamp = Attributes.get_timestamp a;
          stop_sequence = Attributes.get_stop_sequence a;
        });
        start_time = some (T.new_timestamp (T.as_time (Attributes.get_timestamp prev.attributes)));
        end_time = some (T.new_timestamp (T.as_time (Attributes.get_timestamp a)));
        travel_time_seconds = travel_seconds prev event;
      }

  module _ (S : StateStore) where
    open S use {State, get, set}

    store : ℤ → StopEvent → State → State
    store u event s = (set u (key_of event) (some (stop (some event))) hour s).0

    -- The two branches of `if found`.
    unfoldable pub arrive :
        ℤ → Option StopEvent → Bool → StopEvent → State → State × List TravelTimeEvent
    unfolding store
    arrive u previous false event s = (store u event s, [])
    arrive u none true event s = (store u event s, [])
    arrive u (some prev) true event s =
        if stop_of prev == stop_of event
        then (s, [])
        else if leb_ℤ (travel_seconds prev event) (pos 0)
        then (store u event s, [])
        else (store u event s, travel_time_event prev event ∷ [])

    unfoldable pub process_type :
        EventType → ℤ → ℤ → StopEvent → State → State × List TravelTimeEvent
    unfolding arrive
    process_type arrival t u event s =
        let (previous, found) = get t (key_of event) new_stop_event s in
        arrive u (as_stop_event previous) found event s
    process_type _ t u event s = (s, [])

    unfoldable pub process : ℤ → ℤ → Option StopEvent → State → State × List TravelTimeEvent
    unfolding process_type
    process t u none s = (s, [])
    process t u (some event) s = process_type event.stop_event_type t u event s

    -- The elements of `in`, each with the two instants of its turn.
    unfoldable pub do_stream :
        List (ℤ × ℤ × Element StopEvent) → State → State × List TravelTimeEvent
    unfolding run_stream
    do_stream = run_stream process
