-- ===== src/Sinks/Parquet/Columns.antt =====
-- The columns of sinks/parquet_sink.go, and the event that a reader makes of a row.
use mathlib.Core.Path.{ap₂}
use tpm_go.Prelude.{
  zero, suc, ◌≡◌, refl, ap, false, ◌⊎◌, inl, inr, String, Option, none, some, if◌then◌else◌, arith,
}
use tpm_go.Prelude.Int.{ℤ, pos, negsuc, is_zero_ℤ, ◌*ℤ◌}
use tpm_go.Prelude.Text.{◌==◌}
use tpm_go.Events.Timestamp.{Timestamp, TimeOps, TimeLaws, second}
use tpm_go.Events.Attributes.{StopStatus, incoming_at, stopped_at, in_transit_to, EventAttributes}
use tpm_go.Events.Stop.{EventType, arrival, departure}
use tpm_go.Events.Message.{Message, vehicle_position, stop, dwell_time, travel_time, headway_time}
use tpm_go.Sinks.Database.{status_number, type_name}
use tpm_go.Sinks.Parquet.{EventRow, unix, unix_column, common_row, add_columns, to_event_row}

abbrev pub status_of : ℤ → StopStatus
status_of n = elim n [
  | pos zero ↦ StopStatus.unknown
  | pos (suc zero) ↦ incoming_at
  | pos (suc (suc zero)) ↦ stopped_at
  | _ ↦ in_transit_to
]

abbrev pub type_of : String → EventType
type_of s =
    if s == "ARRIVAL" then arrival else if s == "DEPARTURE" then departure else EventType.unknown

status_of-number : (s : StopStatus) → status_of (status_number s) ≡ s
status_of-number StopStatus.unknown = refl
status_of-number incoming_at = refl
status_of-number stopped_at = refl
status_of-number in_transit_to = refl

type_of-name : (t : EventType) → type_of (type_name t) ≡ t
type_of-name EventType.unknown = refl
type_of-name arrival = refl
type_of-name departure = refl

unix-whole : (n : ℤ) → unix (n *ℤ second) ≡ n
unfolding ◌*ℤ◌
unix-whole (pos n) = ground arith
unix-whole (negsuc n) = ground arith

module _ (T : TimeOps) where
  abbrev pub time_of : ℤ → Option Timestamp
  time_of n = if is_zero_ℤ n then none else some (T.new_timestamp (n *ℤ second))

  -- Not set, or at a whole second other than the epoch.
  abbrev pub IsWhole : Option Timestamp → Type 0
  IsWhole ts =
      (ts ≡ none) ⊎ ((n : ℤ) × (is_zero_ℤ n ≡ false) × (ts ≡ some (T.new_timestamp (n *ℤ second))))

  abbrev pub attributes_from : EventRow → EventAttributes
  attributes_from row = record {
    agency_id = row.agency_id;
    vehicle_id = row.vehicle_id;
    route_id = row.route_id;
    stop_id = row.stop_id;
    origin_stop_id = row.origin_stop_id;
    destination_stop_id = row.destination_stop_id;
    direction_id = row.direction_id;
    direction = row.direction;
    direction_destination = row.direction_destination;
    parent_station = row.parent_station;
    stop_sequence = row.stop_sequence;
    stop_status = status_of row.stop_status;
    trip_id = row.trip_id;
    service_date = row.service_date;
    timestamp = time_of row.timestamp;
  }

  abbrev pub stop_from : EventRow → Message
  stop_from row = stop (
      some (record {
        attributes = some (attributes_from row);
        stop_event_type = type_of row.stop_event_type;
      }))

  abbrev pub dwell_from : EventRow → Message
  dwell_from row = dwell_time (
      some (record {
        attributes = some (attributes_from row);
        arrival_time = time_of row.arrival_time;
        departure_time = time_of row.departure_time;
        dwell_time_seconds = row.dwell_time_seconds;
      }))

  abbrev pub travel_from : EventRow → Message
  travel_from row = travel_time (
      some (record {
        attributes = some (attributes_from row);
        start_time = time_of row.start_time;
        end_time = time_of row.end_time;
        travel_time_seconds = row.travel_time_seconds;
      }))

  abbrev pub headway_from : EventRow → Message
  headway_from row = headway_time (
      some (record {
        attributes = some (attributes_from row);
        leading_vehicle_id = row.leading_vehicle_id;
        following_vehicle_id = row.following_vehicle_id;
        headway_seconds = row.headway_seconds;
      }))

  -- The event of a row, by the row's event type.
  abbrev pub event_from : EventRow → Option Message
  event_from row =
      if row.event_type == "StopEvent"
      then some (stop_from row)
      else if row.event_type == "DwellTimeEvent"
      then some (dwell_from row)
      else if row.event_type == "TravelTimeEvent"
      then some (travel_from row)
      else if row.event_type == "HeadwayTimeEvent"
      then some (headway_from row)
      else none

  abbrev pub HasAttributes : Option EventAttributes → Type 0
  HasAttributes none = ⊥
  HasAttributes (some a) = IsWhole a.timestamp

  -- A stop event, a dwell time, a travel time or a headway that has attributes, whose timestamps
  -- are not set or at a whole second other than the epoch.
  abbrev pub IsComplete : Message → Type 0
  IsComplete (stop (some x)) = HasAttributes x.attributes
  IsComplete (dwell_time (some x)) =
      HasAttributes x.attributes × IsWhole x.arrival_time × IsWhole x.departure_time
  IsComplete (travel_time (some x)) =
      HasAttributes x.attributes × IsWhole x.start_time × IsWhole x.end_time
  IsComplete (headway_time (some x)) = HasAttributes x.attributes
  IsComplete _ = ⊥

  module _ (laws : TimeLaws T) where
    time_of-unix : (ts : Option Timestamp) → IsWhole ts → time_of (unix_column T ts) ≡ ts
    time_of-unix ts (inl e) = rw e refl
    time_of-unix ts (inr (n, nonzero, e)) =
        rw (e, laws.as_time-new_timestamp (n *ℤ second), unix-whole n, nonzero) refl

    attributes_from-row :
        (kind : String) (a : Option EventAttributes)
        → HasAttributes a
        → some (attributes_from (common_row T kind a)) ≡ a
    unfolding common_row
    attributes_from-row kind (some a) h =
        ap₂ (λ s ts. some (record a { stop_status = s; timestamp = ts }))
          (status_of-number a.stop_status) (time_of-unix a.timestamp h)
    attributes_from-row kind none h = absurd h

    -- Under the laws of the timestamps, a stop event, a dwell time, a travel time or a headway
    -- that has attributes, and whose timestamps are not set or at a whole second other than the
    -- epoch, can be read back from its row.
    pub event_from-to_event_row :
        (e : Message) → IsComplete e → event_from (to_event_row T e) ≡ some e
    unfolding to_event_row add_columns common_row
    event_from-to_event_row (stop (some x)) h = λ i. some (
        stop (
          some (record {
            attributes = (attributes_from-row "StopEvent" x.attributes h) i;
            stop_event_type = (type_of-name x.stop_event_type) i;
          })))
    event_from-to_event_row (dwell_time (some x)) h = λ i. some (
        dwell_time (
          some (record x {
            attributes = (attributes_from-row "DwellTimeEvent" x.attributes h.0) i;
            arrival_time = (time_of-unix x.arrival_time h.1) i;
            departure_time = (time_of-unix x.departure_time h.2) i;
          })))
    event_from-to_event_row (travel_time (some x)) h = λ i. some (
        travel_time (
          some (record x {
            attributes = (attributes_from-row "TravelTimeEvent" x.attributes h.0) i;
            start_time = (time_of-unix x.start_time h.1) i;
            end_time = (time_of-unix x.end_time h.2) i;
          })))
    event_from-to_event_row (headway_time (some x)) h =
        ap (λ a. some (headway_time (some (record x { attributes = a }))))
          (attributes_from-row "HeadwayTimeEvent" x.attributes h)
    event_from-to_event_row (stop none) h = absurd h
    event_from-to_event_row (dwell_time none) h = absurd h
    event_from-to_event_row (travel_time none) h = absurd h
    event_from-to_event_row (headway_time none) h = absurd h
    event_from-to_event_row (vehicle_position e) h = absurd h
