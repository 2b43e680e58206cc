-- ===== src/Sinks/Database.antt =====
-- sinks/db_sink.go. A statement is the text and the arguments that `ExecContext` is given; its
-- error is only logged, so `flush` is the list of the statements that it executes. The batch
-- holds values of the interface `events.Event`.
pub mod Inserts
pub mod Rows
pub mod Placeholders
use tpm_go.Prelude.{
  ℕ, zero, suc, ◌+◌, ◌*◌, String, Option, none, some, List, [], ◌∷◌, ◌++◌, map, length, ◌&&◌,
  if◌then◌else◌,
}
use tpm_go.Prelude.Int.{ℤ, pos, negsuc, pos_part, leb_ℤ}
use tpm_go.Prelude.Decimal.{format_uint}
use tpm_go.Prelude.Text.{◌==◌, ◌<>◌}
use tpm_go.Events.Timestamp.{Timestamp, TimeOps}
use tpm_go.Events.Attributes
use tpm_go.Events.Attributes.{StopStatus, incoming_at, stopped_at, in_transit_to, EventAttributes}
use tpm_go.Events.Stop
use tpm_go.Events.Stop.{EventType, arrival, departure, StopEvent}
use tpm_go.Events.Dwell
use tpm_go.Events.Dwell.{DwellTimeEvent}
use tpm_go.Events.TravelTime
use tpm_go.Events.TravelTime.{TravelTimeEvent}
use tpm_go.Events.Headway
use tpm_go.Events.Headway.{HeadwayTimeEvent}
use tpm_go.Events.Message.{Message, vehicle_position, stop, dwell_time, travel_time, headway_time}
use tpm_go.Sinks.Batch.{Input, background, Run, or_default, do_sink}

-- An argument of a statement; a time that is none is a nil *time.Time.
pub data Arg : Type 0 where
  text : String → Arg
  int : ℤ → Arg
  time : Option ℤ → Arg

pub record Statement : Type 0 where
  pub query : String
  pub args : List Arg

-- The number of a StopStatus, and the name of an EventType.
abbrev pub status_number : StopStatus → ℤ
status_number StopStatus.unknown = pos 0
status_number incoming_at = pos 1
status_number stopped_at = pos 2
status_number in_transit_to = pos 3

abbrev pub type_name : EventType → String
type_name EventType.unknown = "UNKNOWN"
type_name arrival = "ARRIVAL"
type_name departure = "DEPARTURE"

-- strings.Join
unfoldable pub join : String → List String → String
join sep [] = ""
join sep (x ∷ []) = x
join sep (x ∷ y ∷ ys) = x <> sep <> join sep (y ∷ ys)

-- The numbers of the placeholders: from `i*nCols + 1`, one for each column still to come.
unfoldable pub row_numbers : ℕ → ℕ → List ℕ
row_numbers next zero = []
row_numbers next (suc cols) = next ∷ row_numbers (next + 1) cols

-- The rows from row `i` on.
unfoldable pub numbers : ℕ → ℕ → ℕ → List (List ℕ)
unfolding row_numbers
numbers n_cols i zero = []
numbers n_cols i (suc rows) = row_numbers (i * n_cols + 1) n_cols ∷ numbers n_cols (i + 1) rows

unfoldable pub placeholder : ℕ → String
unfolding ◌<>◌
placeholder n = "$" <> format_uint n

unfoldable pub row_text : List ℕ → String
unfolding join placeholder
row_text ns = "(" <> join ", " (map placeholder ns) <> ")"

unfoldable pub build_insert : String → List String → ℕ → String
unfolding numbers join row_text
build_insert table cols n_rows =
    "INSERT INTO "
    <> table
    <> " ("
    <> join ", " cols
    <> ") VALUES "
    <> join ", " (map row_text (numbers (length cols) 0 n_rows))

-- `args = append(args, …)` for each event of the batch
unfoldable pub all_args {ℓ} : {A : Type ℓ} → (A → List Arg) → List A → List Arg
all_args row [] = []
all_args row (e ∷ es) = row e ++ all_args row es

-- One of the four insert functions, for a batch that is not empty.
unfoldable pub insert_some {ℓ} :
    {A : Type ℓ} → String → List String → (A → List Arg) → List A → List Statement
unfolding all_args build_insert
insert_some table cols row [] = []
insert_some table cols row (e ∷ es) =
    record { query = build_insert table cols (length (e ∷ es)); args = all_args row (e ∷ es) } ∷ []

-- The four slices that `flush` collects.
pub record Sorted : Type 0 where
  pub stop_events : List (Option StopEvent)
  pub dwell_events : List (Option DwellTimeEvent)
  pub travel_events : List (Option TravelTimeEvent)
  pub headway_events : List (Option HeadwayTimeEvent)

abbrev pub nothing_sorted : Sorted
nothing_sorted = record {
  stop_events = [];
  dwell_events = [];
  travel_events = [];
  headway_events = [];
}

-- The loop of `flush`; an event of another type is passed over.
unfoldable pub sort_events : List Message → Sorted → Sorted
sort_events [] p = p
sort_events (stop e ∷ es) p = sort_events es (record p { stop_events = p.stop_events ++ e ∷ [] })
sort_events (dwell_time e ∷ es) p =
    sort_events es (record p { dwell_events = p.dwell_events ++ e ∷ [] })
sort_events (travel_time e ∷ es) p =
    sort_events es (record p { travel_events = p.travel_events ++ e ∷ [] })
sort_events (headway_time e ∷ es) p =
    sort_events es (record p { headway_events = p.headway_events ++ e ∷ [] })
sort_events (vehicle_position e ∷ es) p = sort_events es p

-- The columns that all tables share, in the order of their arguments.
abbrev pub common_columns : List String
common_columns =
    "agency_id" ∷ "vehicle_id" ∷ "route_id" ∷ "stop_id" ∷ "origin_stop_id" ∷ "destination_stop_id"
    ∷ "direction_id" ∷ "direction" ∷ "direction_destination" ∷ "parent_station" ∷ "stop_sequence"
    ∷ "stop_status" ∷ "trip_id" ∷ "service_date" ∷ "event_timestamp" ∷ []

abbrev pub stop_columns : List String
stop_columns = common_columns ++ "stop_event_type" ∷ []

abbrev pub dwell_columns : List String
dwell_columns = common_columns ++ "arrival_time" ∷ "departure_time" ∷ "dwell_time_seconds" ∷ []

abbrev pub travel_columns : List String
travel_columns = common_columns ++ "start_time" ∷ "end_time" ∷ "travel_time_seconds" ∷ []

abbrev pub headway_columns : List String
headway_columns =
    common_columns ++ "leading_vehicle_id" ∷ "following_vehicle_id" ∷ "headway_seconds" ∷ []

module _ (T : TimeOps) where
  unfoldable pub nullable_time : Option EventAttributes → Option ℤ
  nullable_time none = none
  nullable_time (some a) = elim a.timestamp [ none ↦ none | some ts ↦ some (T.as_time (some ts)) ]

  -- time.Time{}, the zero time: the start of the year 1.
  abbrev pub zero_time : ℤ
  zero_time = negsuc 62135596799999999999

  -- The argument is an interface value that holds the pointer, so it is never nil itself.
  unfoldable pub nullable_timestamp : Option Timestamp → Option ℤ
  nullable_timestamp ts =
      let t = T.as_time ts in if leb_ℤ t zero_time && leb_ℤ zero_time t then none else some t

  unfoldable pub common_args : Option EventAttributes → List Arg
  unfolding nullable_time
  common_args a =
      text (Attributes.get_agency_id a)
      ∷ text (Attributes.get_vehicle_id a)
      ∷ text (Attributes.get_route_id a)
      ∷ text (Attributes.get_stop_id a)
      ∷ text (Attributes.get_origin_stop_id a)
      ∷ text (Attributes.get_destination_stop_id a)
      ∷ text (Attributes.get_direction_id a)
      ∷ text (Attributes.get_direction a)
      ∷ text (Attributes.get_direction_destination a)
      ∷ text (Attributes.get_parent_station a)
      ∷ int (Attributes.get_stop_sequence a)
      ∷ int (status_number (Attributes.get_stop_status a))
      ∷ text (Attributes.get_trip_id a)
      ∷ text (Attributes.get_service_date a)
      ∷ time (nullable_time a)
      ∷ []

  unfoldable pub stop_args : Option StopEvent → List Arg
  unfolding common_args
  stop_args e =
      common_args (Stop.get_attributes e) ++ text (type_name (Stop.get_stop_event_type e)) ∷ []

  unfoldable pub dwell_args : Option DwellTimeEvent → List Arg
  unfolding common_args nullable_timestamp
  dwell_args e =
      common_args (Dwell.get_attributes e)
      ++ time (nullable_timestamp (Dwell.get_arrival_time e))
        ∷ time (nullable_timestamp (Dwell.get_departure_time e))
        ∷ int (Dwell.get_dwell_time_seconds e)
        ∷ []

  unfoldable pub travel_args : Option TravelTimeEvent → List Arg
  unfolding common_args nullable_timestamp
  travel_args e =
      common_args (TravelTime.get_attributes e)
      ++ time (nullable_timestamp (TravelTime.get_start_time e))
        ∷ time (nullable_timestamp (TravelTime.get_end_time e))
        ∷ int (TravelTime.get_travel_time_seconds e)
        ∷ []

  unfoldable pub headway_args : Option HeadwayTimeEvent → List Arg
  unfolding common_args
  headway_args e =
      common_args (Headway.get_attributes e)
      ++ text (Headway.get_leading_vehicle_id e)
        ∷ text (Headway.get_following_vehicle_id e)
        ∷ int (Headway.get_headway_seconds e)
        ∷ []

  unfoldable pub insert_sorted : Sorted → List Statement
  unfolding insert_some stop_args dwell_args travel_args headway_args
  insert_sorted p =
      insert_some "stop_events" stop_columns stop_args p.stop_events
      ++ (insert_some "dwell_time_events" dwell_columns dwell_args p.dwell_events
          ++ (insert_some "travel_time_events" travel_columns travel_args p.travel_events
              ++ insert_some "headway_time_events" headway_columns headway_args p.headway_events))

  unfoldable pub flush : List Message → List Statement
  unfolding sort_events insert_sorted
  flush batch = insert_sorted (sort_events batch nothing_sorted)

-- The sink's loop: the batch size of the configuration or 100, and a fresh context for the last
-- flush.
unfoldable pub do_database_sink : ℤ → List (Input Message) → Run Message
unfolding do_sink
do_database_sink max_batch_size inputs =
    do_sink background (pos_part (or_default max_batch_size (pos 100))) inputs []
