-- ===== src/Tests/Sinks.antt =====
-- Runs of the batching sinks, and instances of their theorems.
use tpm_go.Prelude.{
  ℕ, ◌≡◌, refl, some, none, inl, inr, List, [], ◌∷◌, ◌++◌, All, length, ◌<◌, String, arith,
}
use tpm_go.Prelude.Text.{◌<>◌}
use tpm_go.Prelude.Decimal.{format_uint}
use tpm_go.Prelude.Int.{pos, ◌*ℤ◌}
use tpm_go.Events.Attributes.{zero_attributes}
use tpm_go.Events.Stop.{arrival, departure}
use tpm_go.Events.Dwell.{DwellTimeEvent}
use tpm_go.Events.Message.{Message, stop, dwell_time, vehicle_position}
use tpm_go.Sinks.Batch.{
  Input, item, tick, other, cancelled, Context, background, cancelled_context, live_context,
  do_sink,
}
use tpm_go.Sinks.Batch.Laws.{
  received, all_flushed, FitsLimit, items_then_closed, items_then_cancelled, do_sink-received,
  do_sink-FitsLimit, do_sink-closed,
}
use tpm_go.Sinks.Database
use tpm_go.Sinks.Database.{
  build_insert, insert_sorted, Statement, dwell_columns, common_args, nullable_timestamp, time, int,
}
use tpm_go.Sinks.Database.Placeholders.{IsNumbered, flush-IsNumbered}
use tpm_go.Sinks.Database.Inserts.{flush-unset_arrival}
use tpm_go.Sinks.Database.Rows.{Events, stops, args_of, executed, rows_of, do_database_sink-rows}
use tpm_go.Sinks.Parquet.{
  Calendar, Client, Settings, object_key, to_event_row, write_flushes, do_parquet_sink,
}
use tpm_go.Sinks.Parquet.Columns.{event_from, event_from-to_event_row}
use tpm_go.Sinks.Parquet.Objects.{ClientLaws, do_parquet_sink-cancelled}
use tpm_go.Tests.Base.{exact, exact-TimeLaws, stop_event, stamp}

abbrev inputs : List (Input ℕ)
inputs = item 1 ∷ item 2 ∷ other ∷ item 3 ∷ tick ∷ item 4 ∷ cancelled ∷ item 5 ∷ []

three_flushes :
    (do_sink background 2 inputs []).flushed
    ≡ (live_context, 1 ∷ 2 ∷ []) ∷ (live_context, 3 ∷ []) ∷ (background, 4 ∷ []) ∷ []
unfolding do_sink
three_flushes = refl

do_sink-received_example :
    all_flushed (do_sink background 2 inputs []).flushed ++ (do_sink background 2 inputs []).left
    ≡ [] ++ received inputs
do_sink-received_example = do_sink-received background 2 inputs []

do_sink-FitsLimit_example :
    All (FitsLimit 2) (do_sink background 2 inputs []).flushed
    × (length (do_sink background 2 inputs []).left < 2)
do_sink-FitsLimit_example = do_sink-FitsLimit background 2 inputs [] (omega arith)

do_sink-closed_example :
    do_sink {A = ℕ} background 5 (items_then_closed (1 ∷ 2 ∷ [])) (0 ∷ [])
    ≡ record { flushed = []; left = 0 ∷ 1 ∷ 2 ∷ [] }
do_sink-closed_example = do_sink-closed background 5 (1 ∷ 2 ∷ []) (0 ∷ []) (omega arith)

two_rows : build_insert "t" ("a" ∷ "b" ∷ []) 2 ≡ "INSERT INTO t (a, b) VALUES ($1, $2), ($3, $4)"
unfolding build_insert ◌<>◌ format_uint
two_rows = refl

abbrev dwell : DwellTimeEvent
dwell = record {
  attributes = some (record zero_attributes { vehicle_id = "v1"; stop_id = "A" });
  arrival_time = some (stamp (pos 100000000000));
  departure_time = none;
  dwell_time_seconds = pos 30;
}

abbrev batch : List Message
batch =
    stop (some (stop_event arrival "v1" "A" 100))
    ∷ vehicle_position none
    ∷ dwell_time (some dwell)
    ∷ stop (some (stop_event departure "v1" "A" 130))
    ∷ []

two_inserts : length (Database.flush exact batch) ≡ 2
unfolding Database.flush
two_inserts = refl

flush-IsNumbered_example : All IsNumbered (Database.flush exact batch)
flush-IsNumbered_example = flush-IsNumbered exact batch

abbrev stop_inputs : List (Input Message)
stop_inputs =
    item (stop (some (stop_event arrival "v1" "A" 100)))
    ∷ item (stop none)
    ∷ tick
    ∷ item (stop (some (stop_event departure "v1" "A" 130)))
    ∷ cancelled
    ∷ []

abbrev stop_rows : Events
stop_rows =
    stops (
      some (stop_event arrival "v1" "A" 100) ∷ none ∷ some (stop_event departure "v1" "A" 130) ∷ [])

do_database_sink-rows_example :
    args_of (executed exact (Database.do_database_sink (pos 2) stop_inputs).flushed)
    ≡ rows_of exact stop_rows
do_database_sink-rows_example = do_database_sink-rows exact (pos 2) stop_inputs stop_rows refl refl

flush-unset_arrival_example :
    Database.flush exact (dwell_time (some (record dwell { arrival_time = none })) ∷ [])
    ≡ record {
      query = build_insert "dwell_time_events" dwell_columns 1;
      args =
          common_args exact dwell.attributes
          ++ time (some (pos 0)) ∷ time (nullable_timestamp exact none) ∷ int (pos 30) ∷ [];
    }
      ∷ []
flush-unset_arrival_example = flush-unset_arrival exact exact-TimeLaws dwell

event_from-to_event_row_example :
    event_from exact (to_event_row exact (dwell_time (some dwell))) ≡ some (dwell_time (some dwell))
unfolding ◌*ℤ◌
event_from-to_event_row_example =
    event_from-to_event_row exact exact-TimeLaws (dwell_time (some dwell))
      (inl refl, inr (pos 100, refl, refl), inl refl)

abbrev calendar : Calendar
calendar = record {
  stamp = λ t. "20261126_165734";
  year = λ t. 2026;
  month = λ t. 1;
  day = λ t. 26;
}

key_of_flush :
    object_key calendar "" "stop_events" (pos 0)
    ≡ "stop_events/year=2026/month=01/day=26/20261126_165734.parquet"
unfolding object_key ◌<>◌ format_uint
key_of_flush = refl

abbrev put : Context → String → String → List (String × String) → List (String × String)
put cancelled_context key body bucket = bucket
put _ key body bucket = (key, body) ∷ bucket

-- The objects of the bucket in a list, the last one first.
abbrev client : Client
client = record {
  Bucket = List (String × String);
  put_object = put;
  serialize_rows = λ rows. some (format_uint (length rows));
}

client-ClientLaws : ClientLaws client
client-ClientLaws = record { put_object-cancelled = λ key body bucket. refl }

abbrev settings : Settings
settings = record { prefix = ""; event_type = "stop_events"; max_batch_size = pos 10 }

do_parquet_sink-cancelled_example :
    write_flushes exact calendar client settings
      (λ n. pos n)
      (do_parquet_sink exact calendar client settings (items_then_cancelled batch)).flushed
      []
    ≡ []
do_parquet_sink-cancelled_example =
    do_parquet_sink-cancelled exact calendar client settings client-ClientLaws (λ n. pos n) batch []
      (omega arith)
