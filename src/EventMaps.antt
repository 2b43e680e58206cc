-- ===== src/EventMaps.antt =====
-- api/v1/events/events.go: the maps of an event's attributes and values. A map is the list of its
-- entries; an instant is a `time.Time`, and a float is its bit pattern.
pub mod Keys
use tpm_go.Prelude.{ℕ, String, Option, List, [], ◌∷◌}
use tpm_go.Prelude.Int.{ℤ}
use tpm_go.Prelude.Maps.{insert}
use tpm_go.Events.Timestamp.{TimeOps}
use tpm_go.Events.Attributes
use tpm_go.Events.Attributes.{StopStatus}
use tpm_go.Events.VehiclePosition
use tpm_go.Events.Stop
use tpm_go.Events.Dwell
use tpm_go.Events.TravelTime
use tpm_go.Events.Headway
use tpm_go.Events.Message.{Message, vehicle_position, stop, dwell_time, travel_time, headway_time}
use tpm_go.Sinks.Database.{type_name}
use tpm_go.Sinks.Parquet.{unix, go_type, attributes_of}

pub data Value : Type 0 where
  text : String → Value
  int : ℤ → Value
  status : StopStatus → Value
  instant : ℤ → Value
  float : ℕ → Value

abbrev pub EventMap : Type 0
EventMap = List (String × Value)

-- `for k, v := range m { combined[k] = v }`
unfoldable pub merge : EventMap → EventMap → EventMap
merge [] combined = combined
merge ((k, v) ∷ es) combined = merge es (insert k v combined)

module _ (T : TimeOps) where
  unfoldable pub get_event_attributes_map : Message → EventMap
  get_event_attributes_map e =
      let a = attributes_of e in
      ("event_type", text (go_type e))
      ∷ ("agency_id", text (Attributes.get_agency_id a))
      ∷ ("vehicle_id", text (Attributes.get_vehicle_id a))
      ∷ ("route_id", text (Attributes.get_route_id a))
      ∷ ("stop_id", text (Attributes.get_stop_id a))
      ∷ ("origin_stop_id", text (Attributes.get_origin_stop_id a))
      ∷ ("destination_stop_id", text (Attributes.get_destination_stop_id a))
      ∷ ("direction_id", text (Attributes.get_direction_id a))
      ∷ ("direction", text (Attributes.get_direction a))
      ∷ ("direction_destination", text (Attributes.get_direction_destination a))
      ∷ ("parent_station", text (Attributes.get_parent_station a))
      ∷ ("stop_sequence", int (Attributes.get_stop_sequence a))
      ∷ ("stop_status", status (Attributes.get_stop_status a))
      ∷ ("trip_id", text (Attributes.get_trip_id a))
      ∷ ("service_date", text (Attributes.get_service_date a))
      ∷ ("timestamp", instant (T.as_time (Attributes.get_timestamp a)))
      ∷ []

  unfoldable pub get_values : Message → EventMap
  get_values (vehicle_position e) =
      ("latitude", float (VehiclePosition.get_latitude e))
      ∷ ("longitude", float (VehiclePosition.get_longitude e))
      ∷ []
  get_values (stop e) = ("stop_event_type", text (type_name (Stop.get_stop_event_type e))) ∷ []
  get_values (dwell_time e) =
      ("arrival_time", int (unix (T.as_time (Dwell.get_arrival_time e))))
      ∷ ("departure_time", int (unix (T.as_time (Dwell.get_departure_time e))))
      ∷ ("dwell_time_seconds", int (Dwell.get_dwell_time_seconds e))
      ∷ []
  get_values (headway_time e) =
      ("leading_vehicle_id", text (Headway.get_leading_vehicle_id e))
      ∷ ("following_vehicle_id", text (Headway.get_following_vehicle_id e))
      ∷ ("headway_time_seconds", int (Headway.get_headway_seconds e))
      ∷ []
  get_values (travel_time e) =
      ("start_time", int (unix (T.as_time (TravelTime.get_start_time e))))
      ∷ ("end_time", int (unix (T.as_time (TravelTime.get_end_time e))))
      ∷ ("travel_time_seconds", int (TravelTime.get_travel_time_seconds e))
      ∷ []

  unfoldable pub get_event_map : Message → EventMap
  unfolding merge get_event_attributes_map get_values
  get_event_map e = merge (get_values e) (merge (get_event_attributes_map e) [])
