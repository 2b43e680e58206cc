-- ===== src/Events/Attributes.antt =====
-- api/v1/events/transit.pb.go: `StopStatus` and `EventAttributes`. A message is reached through a
-- pointer, so each getter takes an `Option`, and answers the zero value at a nil pointer.
use tpm_go.Prelude.{String, Option, none, some}
use tpm_go.Prelude.Int.{ℤ, pos}
use tpm_go.Events.Timestamp.{Timestamp}

pub data StopStatus : Type 0 where
  unknown incoming_at stopped_at in_transit_to : StopStatus

pub record EventAttributes : Type 0 where
  pub agency_id : String
  pub vehicle_id : String
  pub route_id : String
  pub stop_id : String
  pub origin_stop_id : String
  pub destination_stop_id : String
  pub direction_id : String
  pub direction : String
  pub direction_destination : String
  pub parent_station : String
  pub stop_sequence : ℤ
  pub stop_status : StopStatus
  pub trip_id : String
  pub service_date : String
  pub timestamp : Option Timestamp

abbrev pub get_agency_id : Option EventAttributes → String
get_agency_id none = ""
get_agency_id (some x) = x.agency_id

abbrev pub get_vehicle_id : Option EventAttributes → String
get_vehicle_id none = ""
get_vehicle_id (some x) = x.vehicle_id

abbrev pub get_route_id : Option EventAttributes → String
get_route_id none = ""
get_route_id (some x) = x.route_id

abbrev pub get_stop_id : Option EventAttributes → String
get_stop_id none = ""
get_stop_id (some x) = x.stop_id

abbrev pub get_origin_stop_id : Option EventAttributes → String
get_origin_stop_id none = ""
get_origin_stop_id (some x) = x.origin_stop_id

abbrev pub get_destination_stop_id : Option EventAttributes → String
get_destination_stop_id none = ""
get_destination_stop_id (some x) = x.destination_stop_id

abbrev pub get_direction_id : Option EventAttributes → String
get_direction_id none = ""
get_direction_id (some x) = x.direction_id

abbrev pub get_direction : Option EventAttributes → String
get_direction none = ""
get_direction (some x) = x.direction

abbrev pub get_direction_destination : Option EventAttributes → String
get_direction_destination none = ""
get_direction_destination (some x) = x.direction_destination

abbrev pub get_parent_station : Option EventAttributes → String
get_parent_station none = ""
get_parent_station (some x) = x.parent_station

abbrev pub get_stop_sequence : Option EventAttributes → ℤ
get_stop_sequence none = pos 0
get_stop_sequence (some x) = x.stop_sequence

abbrev pub get_stop_status : Option EventAttributes → StopStatus
get_stop_status none = StopStatus.unknown
get_stop_status (some x) = x.stop_status

abbrev pub get_trip_id : Option EventAttributes → String
get_trip_id none = ""
get_trip_id (some x) = x.trip_id

abbrev pub get_service_date : Option EventAttributes → String
get_service_date none = ""
get_service_date (some x) = x.service_date

abbrev pub get_timestamp : Option EventAttributes → Option Timestamp
get_timestamp none = none
get_timestamp (some x) = x.timestamp

-- The zero `EventAttributes`, from which a composite literal sets the fields that it names.
abbrev pub zero_attributes : EventAttributes
zero_attributes = record {
  agency_id = "";
  vehicle_id = "";
  route_id = "";
  stop_id = "";
  origin_stop_id = "";
  destination_stop_id = "";
  direction_id = "";
  direction = "";
  direction_destination = "";
  parent_station = "";
  stop_sequence = pos 0;
  stop_status = StopStatus.unknown;
  trip_id = "";
  service_date = "";
  timestamp = none;
}
