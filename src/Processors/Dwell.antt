-- ===== src/Processors/Dwell.antt =====
-- processors/transit/dwell_events/dwell_event_processor.go. `process` takes the instants at which
-- the store reads the clock, for `Get` and for `Set`, and returns what it sends to `out`.
pub mod Turn
pub mod Keys
pub mod Shared
pub mod Machine
pub mod Sound
pub mod Pairing
pub mod Count
use tpm_go.Prelude.{Bool, true, String, Option, none, some, List, [], ◌∷◌, if◌then◌else◌}
use tpm_go.Prelude.Int.{ℤ, pos, ltb_ℤ}
use tpm_go.Prelude.Text.{◌<>◌}
use tpm_go.Events.Timestamp.{TimeOps, sub, hour}
use tpm_go.Events.Attributes
use tpm_go.Events.Attributes.{zero_attributes}
use tpm_go.Events.Stop.{EventType, arrival, departure, StopEvent}
use tpm_go.Events.Dwell.{DwellTimeEvent}
use tpm_go.Events.Message.{ProtoMessage, stop}
use tpm_go.StateStore.Interface.{StateStore}
use tpm_go.Processors.Element.{Element, run_stream, as_stop_event, new_stop_event}

pub record DwellStopKey : Type 0 where
  pub agency_id : String
  pub route_id : String
  pub stop_id : String
  pub direction_id : String
  pub vehicle_id : String

unfoldable pub new_dwell_stop_key : StopEvent → DwellStopKey
new_dwell_stop_key e = record {
  agency_id = Attributes.get_agency_id e.attributes;
  route_id = Attributes.get_route_id e.attributes;
  stop_id = Attributes.get_stop_id e.attributes;
  direction_id = Attributes.get_direction_id e.attributes;
  vehicle_id = Attributes.get_vehicle_id e.attributes;
}

-- fmt.Sprintf("%s-%s-%s-%s-%s", …)
unfoldable pub key_string : DwellStopKey → String
key_string k =
    k.agency_id <> "-" <> k.route_id <> "-" <> k.stop_id <> "-" <> k.direction_id <> "-"
    <> k.vehicle_id

unfoldable pub key_of : StopEvent → String
unfolding key_string new_dwell_stop_key
key_of e = key_string (new_dwell_stop_key e)

module _ (T : TimeOps) where
  unfoldable pub dwell_seconds : StopEvent → StopEvent → ℤ
  dwell_seconds arrived event = T.int32_seconds (
      sub (T.as_time (Attributes.get_timestamp event.attributes))
        (T.as_time (Attributes.get_timestamp arrived.attributes)))

  unfoldable pub dwell_event : StopEvent → StopEvent → DwellTimeEvent
  unfolding dwell_seconds
  dwell_event arrived event =
      let a = event.attributes in
      record {
        attributes = some (record zero_attributes {
          agency_id = Attributes.get_agency_id a;
          route_id = Attributes.get_route_id a;
          stop_id = Attributes.get_stop_id a;
          direction_id = Attributes.get_direction_id a;
          vehicle_id = Attributes.get_vehicle_id a;
          timestamp = Attributes.get_timestamp a;
          trip_id = Attributes.get_trip_id a;
          service_date = Attributes.get_service_date a;
          stop_sequence = Attributes.get_stop_sequence a;
        });
        arrival_time =
            some (T.new_timestamp (T.as_time (Attributes.get_timestamp arrived.attributes)));
        departure_time = some (T.new_timestamp (T.as_time (Attributes.get_timestamp a)));
        dwell_time_seconds = dwell_seconds arrived event;
      }

  module _ (S : StateStore) where
    open S use {State, get, set, delete}

    -- The branch of a departure whose key was found.
    unfoldable pub depart :
        String → Option StopEvent → StopEvent → State → State × List DwellTimeEvent
    depart key none event s = (delete key s, [])
    depart key (some arrived) event s =
        if ltb_ℤ (dwell_seconds arrived event) (pos 0)
        then (delete key s, [])
        else (delete key s, dwell_event arrived event ∷ [])

    unfoldable pub process_type :
        ℤ → EventType → ProtoMessage × Bool → StopEvent → State → State × List DwellTimeEvent
    unfolding depart
    process_type u departure (current_state, true) event s =
        depart (key_of event) (as_stop_event current_state) event s
    process_type u arrival (current_state, found) event s =
        ((set u (key_of event) (some (stop (some event))) hour s).0, [])
    process_type u _ (current_state, found) event s = (s, [])

    unfoldable pub process : ℤ → ℤ → Option StopEvent → State → State × List DwellTimeEvent
    unfolding process_type
    process t u none s = (s, [])
    process t u (some event) s =
        process_type u event.stop_event_type (get t (key_of event) new_stop_event s) event s

    -- The elements of `in`, each with the two instants of its turn.
    unfoldable pub do_stream :
        List (ℤ × ℤ × Element StopEvent) → State → State × List DwellTimeEvent
    unfolding run_stream
    do_stream = run_stream process
