-- ===== src/Processors/VehiclePositions.antt =====
-- processors/transit/vehicle_position_events/vehicle_position_event_processor.go. The context and
-- the channel end where the list of elements does.
pub mod Sound
use tpm_go.Prelude.{
  ℕ, zero, suc, ◌-◌, ◌/◌, ◌%◌, ltb, Bool, String, Option, none, some, List, [], ◌∷◌, ◌++◌,
  if◌then◌else◌, ◌&&◌,
}
use tpm_go.Prelude.Int.{ℤ, pos, negsuc, leb_ℤ, ◌*ℤ◌}
use tpm_go.Prelude.Decimal.{format_uint}
use tpm_go.Prelude.Text.{◌==◌, ◌<>◌}
use tpm_go.Events.Timestamp.{TimeOps, second}
use tpm_go.Events.Attributes.{StopStatus, incoming_at, stopped_at, in_transit_to, zero_attributes}
use tpm_go.Events.VehiclePosition.{VehiclePositionEvent}
use tpm_go.Events.Feed
use tpm_go.Events.Feed.{Gtfs, FeedMessageEvent}
use tpm_go.Processors.Element.{Element, bytes, message, other}

-- int32(n) of a uint32, and int64(n) of a uint64
abbrev pub int32_of : ℕ → ℤ
int32_of n = if ltb n 2147483648 then pos n else negsuc (4294967295 - n)

abbrev pub int64_of : ℕ → ℤ
int64_of n = if ltb n 9223372036854775808 then pos n else negsuc (18446744073709551615 - n)

-- time.Unix(sec, 0)
abbrev pub unix : ℤ → ℤ
unix sec = sec *ℤ second

abbrev eq_ℤ : ℤ → ℤ → Bool
eq_ℤ a b = leb_ℤ a b && leb_ℤ b a

module _ (T : TimeOps) (G : Gtfs) (widen : ℕ → ℕ) where
  open G use {VehiclePosition, FeedEntity}

  -- The switch on `GetCurrentStatus().Number()`.
  unfoldable pub status_of : Option VehiclePosition → StopStatus
  status_of vehicle =
      let number = G.get_current_status vehicle in
      if eq_ℤ number G.in_transit_to_number
      then in_transit_to
      else if eq_ℤ number G.stopped_at_number
      then stopped_at
      else if eq_ℤ number G.incoming_at_number
      then incoming_at
      else StopStatus.unknown

  unfoldable pub vehicle_id_of : Option VehiclePosition → String
  vehicle_id_of vehicle =
      let id = G.get_id (G.get_descriptor vehicle) in
      if id == "" then G.get_trip_id (G.get_trip vehicle) else id

  -- The event that is sent for a vehicle. `widen` is the conversion of a float32 to a float64.
  unfoldable pub position_event : String → Option VehiclePosition → VehiclePositionEvent
  unfolding status_of vehicle_id_of
  position_event agency_id vehicle =
      let trip = G.get_trip vehicle in
      record {
        attributes = some (record zero_attributes {
          agency_id = agency_id;
          vehicle_id = vehicle_id_of vehicle;
          route_id = G.get_route_id trip;
          stop_id = G.get_stop_id vehicle;
          trip_id = G.get_trip_id trip;
          service_date = G.get_start_date trip;
          direction_id = format_uint (G.get_direction_id trip);
          stop_sequence = int32_of (G.get_current_stop_sequence vehicle);
          stop_status = status_of vehicle;
          timestamp = some (T.new_timestamp (unix (int64_of (G.get_timestamp vehicle))));
        });
        latitude = widen (G.get_latitude (G.get_position vehicle));
        longitude = widen (G.get_longitude (G.get_position vehicle));
      }

  -- The body of the loop over the entities, for the entity's vehicle: what it sends.
  unfoldable pub send_vehicle : String → Option VehiclePosition → List VehiclePositionEvent
  unfolding position_event
  send_vehicle agency_id none = []
  send_vehicle agency_id (some vehicle) =
      if G.get_stop_id (some vehicle) == ""
      then []
      else position_event agency_id (some vehicle) ∷ []

  unfoldable pub send_entities : String → List (Option FeedEntity) → List VehiclePositionEvent
  unfolding send_vehicle
  send_entities agency_id [] = []
  send_entities agency_id (entity ∷ rest) =
      send_vehicle agency_id (G.get_vehicle entity) ++ send_entities agency_id rest

  unfoldable pub send_feed : Option (FeedMessageEvent G) → List VehiclePositionEvent
  unfolding send_entities
  send_feed event = elim (Feed.get_feed_message event) [
    | none ↦ []
    | some feed ↦ send_entities (Feed.get_agency_id event) (G.get_entity (some feed))
  ]

  unfoldable pub do_stream : List (Element (FeedMessageEvent G)) → List VehiclePositionEvent
  unfolding send_feed
  do_stream [] = []
  do_stream (message event ∷ rest) = send_feed event ++ do_stream rest
  do_stream (bytes b ∷ rest) = do_stream rest
  do_stream (other ∷ rest) = do_stream rest
