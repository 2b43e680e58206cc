-- ===== src/Events/Feed.antt =====
-- api/v1/events/transit.pb.go: `FeedMessageEvent`, and the GTFS-realtime messages that it carries.
-- Those belong to another project's bindings, so their types, getters and constants are a record.
-- A getter answers its default at a nil pointer; an unsigned field is a natural number, a float
-- is its bit pattern.
use tpm_go.Prelude.{ℕ, String, Option, none, some, List}
use tpm_go.Prelude.Int.{ℤ}

pub record Gtfs : Type 1 where
  pub FeedMessage : Type 0
  pub FeedEntity : Type 0
  pub VehiclePosition : Type 0
  pub VehicleDescriptor : Type 0
  pub TripDescriptor : Type 0
  pub Position : Type 0
  pub get_entity : Option FeedMessage → List (Option FeedEntity)
  pub get_vehicle : Option FeedEntity → Option VehiclePosition
  -- GetCurrentStatus().Number()
  pub get_current_status : Option VehiclePosition → ℤ
  pub get_stop_id : Option VehiclePosition → String
  pub get_current_stop_sequence : Option VehiclePosition → ℕ
  pub get_timestamp : Option VehiclePosition → ℕ
  pub get_descriptor : Option VehiclePosition → Option VehicleDescriptor
  pub get_trip : Option VehiclePosition → Option TripDescriptor
  pub get_position : Option VehiclePosition → Option Position
  pub get_id : Option VehicleDescriptor → String
  pub get_trip_id : Option TripDescriptor → String
  pub get_route_id : Option TripDescriptor → String
  pub get_start_date : Option TripDescriptor → String
  pub get_direction_id : Option TripDescriptor → ℕ
  pub get_latitude : Option Position → ℕ
  pub get_longitude : Option Position → ℕ
  -- The numbers of the constants of `VehiclePosition_VehicleStopStatus`.
  pub in_transit_to_number : ℤ
  pub stopped_at_number : ℤ
  pub incoming_at_number : ℤ

pub record FeedMessageEvent (G : Gtfs) : Type 0 where
  pub agency_id : String
  pub feed_message : Option G.FeedMessage

module _ {G : Gtfs} where
  abbrev pub get_agency_id : Option (FeedMessageEvent G) → String
  get_agency_id none = ""
  get_agency_id (some x) = x.agency_id

  abbrev pub get_feed_message : Option (FeedMessageEvent G) → Option G.FeedMessage
  get_feed_message none = none
  get_feed_message (some x) = x.feed_message
