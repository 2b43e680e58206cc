-- ===== src/Sinks/Parquet.antt =====
-- sinks/parquet_sink.go: the flat row of an event, the key of an object, and what a flush puts
-- into the bucket. The S3 client, the Parquet writer and the calendar of package time are
-- parameters; the errors of the first two are only logged.
pub mod Columns
pub mod Objects
use tpm_go.Prelude.{
  ℕ, zero, suc, ◌+◌, ◌/◌, String, Bool, Option, none, some, List, [], ◌∷◌, ◌++◌, length, ltb, not,
  if◌then◌else◌,
}
use tpm_go.Prelude.Int.{ℤ, pos, negsuc, pos_part}
use tpm_go.Prelude.Text.{◌<>◌, ◌==◌}
use tpm_go.Prelude.Decimal.{format_uint}
use tpm_go.Events.Timestamp.{Timestamp, TimeOps}
use tpm_go.Events.Attributes
use tpm_go.Events.Attributes.{EventAttributes}
use tpm_go.Events.VehiclePosition
use tpm_go.Events.Stop
use tpm_go.Events.Dwell
use tpm_go.Events.TravelTime
use tpm_go.Events.Headway
use tpm_go.Events.Message.{Message, vehicle_position, stop, dwell_time, travel_time, headway_time}
use tpm_go.Sinks.Batch.{
  Input, cancelled, tick, closed, other, item, Context, cancelled_context, Run, or_default, do_sink,
}
use tpm_go.Sinks.Database.{status_number, type_name, join}

pub record EventRow : Type 0 where
  pub event_type : String
  pub agency_id : String
  pub vehicle_id : String
  pub route_id : String
  pub stop_id : String
  pub origin_stop_id : String
  pub destination_stop_id : String
  pub direction_id : String
  pub direction : String
  pub direction_destination : String
  pub parent_station : String
  pub stop_sequence : ℤ
  pub stop_status : ℤ
  pub trip_id : String
  pub service_date : String
  pub timestamp : ℤ
  pub stop_event_type : String
  pub arrival_time : ℤ
  pub departure_time : ℤ
  pub dwell_time_seconds : ℤ
  pub start_time : ℤ
  pub end_time : ℤ
  pub travel_time_seconds : ℤ
  pub leading_vehicle_id : String
  pub following_vehicle_id : String
  pub headway_seconds : ℤ

-- t.Unix(): the seconds, rounded down.
abbrev pub unix : ℤ → ℤ
unix (pos n) = pos (n / 1000000000)
unix (negsuc n) = negsuc (n / 1000000000)

-- `%T` of an event without the prefix `*events.`
abbrev pub go_type : Message → String
go_type (vehicle_position e) = "VehiclePositionEvent"
go_type (stop e) = "StopEvent"
go_type (dwell_time e) = "DwellTimeEvent"
go_type (travel_time e) = "TravelTimeEvent"
go_type (headway_time e) = "HeadwayTimeEvent"

-- e.GetAttributes()
abbrev pub attributes_of : Message → Option EventAttributes
attributes_of (vehicle_position e) = VehiclePosition.get_attributes e
attributes_of (stop e) = Stop.get_attributes e
attributes_of (dwell_time e) = Dwell.get_attributes e
attributes_of (travel_time e) = TravelTime.get_attributes e
attributes_of (headway_time e) = Headway.get_attributes e

module _ (T : TimeOps) where
  -- `if ts != nil { … = ts.AsTime().Unix() }`, where the column is 0 before.
  abbrev pub unix_column : Option Timestamp → ℤ
  unix_column none = pos 0
  unix_column (some ts) = unix (T.as_time (some ts))

  unfoldable pub common_row : String → Option EventAttributes → EventRow
  common_row event_type a = record {
    event_type = event_type;
    agency_id = Attributes.get_agency_id a;
    vehicle_id = Attributes.get_vehicle_id a;
    route_id = Attributes.get_route_id a;
    stop_id = Attributes.get_stop_id a;
    origin_stop_id = Attributes.get_origin_stop_id a;
    destination_stop_id = Attributes.get_destination_stop_id a;
    direction_id = Attributes.get_direction_id a;
    direction = Attributes.get_direction a;
    direction_destination = Attributes.get_direction_destination a;
    parent_station = Attributes.get_parent_station a;
    stop_sequence = Attributes.get_stop_sequence a;
    stop_status = status_number (Attributes.get_stop_status a);
    trip_id = Attributes.get_trip_id a;
    service_date = Attributes.get_service_date a;
    timestamp = unix_column (Attributes.get_timestamp a);
    stop_event_type = "";
    arrival_time = pos 0;
    departure_time = pos 0;
    dwell_time_seconds = pos 0;
    start_time = pos 0;
    end_time = pos 0;
    travel_time_seconds = pos 0;
    leading_vehicle_id = "";
    following_vehicle_id = "";
    headway_seconds = pos 0;
  }

  -- The switch on the type of the event.
  unfoldable pub add_columns : Message → EventRow → EventRow
  add_columns (stop e) row = record row { stop_event_type = type_name (Stop.get_stop_event_type e) }
  add_columns (dwell_time e) row = record row {
    arrival_time = unix_column (Dwell.get_arrival_time e);
    departure_time = unix_column (Dwell.get_departure_time e);
    dwell_time_seconds = Dwell.get_dwell_time_seconds e;
  }
  add_columns (travel_time e) row = record row {
    start_time = unix_column (TravelTime.get_start_time e);
    end_time = unix_column (TravelTime.get_end_time e);
    travel_time_seconds = TravelTime.get_travel_time_seconds e;
  }
  add_columns (headway_time e) row = record row {
    leading_vehicle_id = Headway.get_leading_vehicle_id e;
    following_vehicle_id = Headway.get_following_vehicle_id e;
    headway_seconds = Headway.get_headway_seconds e;
  }
  add_columns (vehicle_position e) row = row

  unfoldable pub to_event_row : Message → EventRow
  unfolding common_row add_columns
  to_event_row e = add_columns e (common_row (go_type e) (attributes_of e))

-- What package time tells of an instant in UTC; `stamp` is Format("20060102_150405").
pub record Calendar : Type 0 where
  pub stamp : ℤ → String
  pub year : ℤ → ℕ
  pub month : ℤ → ℕ
  pub day : ℤ → ℕ

-- The verb %02d
two_digits : ℕ → String
unfolding ◌<>◌
two_digits n = if ltb n 10 then "0" <> format_uint n else format_uint n

-- `if s != "" { parts = append(parts, s) }`
abbrev pub part_of : String → List String
part_of s = if s == "" then [] else s ∷ []

unfoldable pub object_key : Calendar → String → String → ℤ → String
unfolding two_digits join ◌<>◌
object_key C prefix event_type t = join "/" (
    part_of prefix
    ++ (part_of event_type
        ++ (("year=" <> format_uint (C.year t))
            ∷ ("month=" <> two_digits (C.month t))
            ∷ ("day=" <> two_digits (C.day t))
            ∷ (C.stamp t <> ".parquet")
            ∷ [])))

-- The bucket, `PutObject` with what it does to the bucket, and the Parquet writer, which is none
-- where it fails.
pub record Client : Type 1 where
  pub Bucket : Type 0
  pub put_object : Context → String → String → Bucket → Bucket
  pub serialize_rows : List EventRow → Option String

pub record Settings : Type 0 where
  pub prefix : String
  pub event_type : String
  pub max_batch_size : ℤ

module _ (T : TimeOps) (C : Calendar) (S : Client) (settings : Settings) where
  unfoldable pub put_rows : Context → ℤ → Option String → S.Bucket → S.Bucket
  unfolding object_key
  put_rows c now none bucket = bucket
  put_rows c now (some buf) bucket =
      S.put_object c (object_key C settings.prefix settings.event_type now) buf bucket

  unfoldable pub flush : Context → ℤ → List EventRow → S.Bucket → S.Bucket
  unfolding put_rows
  flush c now [] bucket = bucket
  flush c now (r ∷ rows) bucket = put_rows c now (S.serialize_rows (r ∷ rows)) bucket

  -- The flushes of a run, each at an instant of the clock.
  unfoldable pub write_flushes : (ℕ → ℤ) → List (Context × List EventRow) → S.Bucket → S.Bucket
  unfolding flush
  write_flushes now [] bucket = bucket
  write_flushes now ((c, rows) ∷ rest) bucket =
      write_flushes (λ n. now (suc n)) rest (flush c (now 0) rows bucket)

  -- `toEventRow(event)` for each event that comes in
  unfoldable pub row_input : Input Message → Input EventRow
  unfolding to_event_row
  row_input (item e) = item (to_event_row T e)
  row_input cancelled = cancelled
  row_input tick = tick
  row_input closed = closed
  row_input other = other

  unfoldable pub row_inputs : List (Input Message) → List (Input EventRow)
  unfolding row_input
  row_inputs [] = []
  row_inputs (i ∷ rest) = row_input i ∷ row_inputs rest

  unfoldable pub do_parquet_sink : List (Input Message) → Run EventRow
  unfolding do_sink row_inputs
  do_parquet_sink inputs =
      do_sink cancelled_context (pos_part (or_default settings.max_batch_size (pos 10000)))
        (row_inputs inputs) []
