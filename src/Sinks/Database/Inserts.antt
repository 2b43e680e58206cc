-- ===== src/Sinks/Database/Inserts.antt =====
-- Which rows the statements of `flush` in sinks/db_sink.go write, and what they write for a
-- timestamp that is not set.
use tpm_go.Prelude.{◌≡◌, refl, Option, none, some, List, [], ◌∷◌, ◌++◌}
use mathlib.Core.List.{append_assoc, append-nil}
use tpm_go.Prelude.Int.{pos}
use tpm_go.Events.Timestamp.{TimeOps, TimeLaws}
use tpm_go.Events.Stop.{StopEvent}
use tpm_go.Events.Dwell.{DwellTimeEvent}
use tpm_go.Events.TravelTime.{TravelTimeEvent}
use tpm_go.Events.Headway.{HeadwayTimeEvent}
use tpm_go.Events.Message.{Message, vehicle_position, stop, dwell_time, travel_time, headway_time}
use tpm_go.Sinks.Database.{
  common_args, time, int, dwell_columns, build_insert, Sorted, sort_events, nullable_timestamp,
  flush, insert_some, dwell_args, all_args, insert_sorted,
}

-- The events of one type among those of a batch, in order.
abbrev pub stops_of : List Message → List (Option StopEvent)
stops_of [] = []
stops_of (stop e ∷ es) = e ∷ stops_of es
stops_of (_ ∷ es) = stops_of es

abbrev pub dwells_of : List Message → List (Option DwellTimeEvent)
dwells_of [] = []
dwells_of (dwell_time e ∷ es) = e ∷ dwells_of es
dwells_of (_ ∷ es) = dwells_of es

abbrev pub travels_of : List Message → List (Option TravelTimeEvent)
travels_of [] = []
travels_of (travel_time e ∷ es) = e ∷ travels_of es
travels_of (_ ∷ es) = travels_of es

abbrev pub headways_of : List Message → List (Option HeadwayTimeEvent)
headways_of [] = []
headways_of (headway_time e ∷ es) = e ∷ headways_of es
headways_of (_ ∷ es) = headways_of es

-- The batch as `flush` should sort it.
abbrev pub by_type : List Message → Sorted
by_type es = record {
  stop_events = stops_of es;
  dwell_events = dwells_of es;
  travel_events = travels_of es;
  headway_events = headways_of es;
}

abbrev join_sorted : Sorted → Sorted → Sorted
join_sorted p q = record {
  stop_events = p.stop_events ++ q.stop_events;
  dwell_events = p.dwell_events ++ q.dwell_events;
  travel_events = p.travel_events ++ q.travel_events;
  headway_events = p.headway_events ++ q.headway_events;
}

sort_events-join : (es : List Message) (p : Sorted) → sort_events es p ≡ join_sorted p (by_type es)
unfolding sort_events
sort_events-join [] p = simp append-nil
sort_events-join (stop e ∷ es) p = simp (sort_events-join es, append_assoc)
sort_events-join (dwell_time e ∷ es) p = simp (sort_events-join es, append_assoc)
sort_events-join (travel_time e ∷ es) p = simp (sort_events-join es, append_assoc)
sort_events-join (headway_time e ∷ es) p = simp (sort_events-join es, append_assoc)
sort_events-join (vehicle_position e ∷ es) p = sort_events-join es p

-- The statements of a flush write the batch's stop events, dwell times, travel times and
-- headways, each type with all its events in the order of the batch, and nothing else.
pub flush-by_type :
    (T : TimeOps) (batch : List Message) → flush T batch ≡ insert_sorted T (by_type batch)
unfolding flush
flush-by_type T batch = simp (sort_events-join)

nullable_timestamp-none : (T : TimeOps) → TimeLaws T → nullable_timestamp T none ≡ some (pos 0)
unfolding nullable_timestamp
nullable_timestamp-none T laws = rw laws.as_time-none refl

-- Where `AsTime` of a nil pointer is the epoch, the flush of a dwell time whose arrival is not set
-- executes one insert, which writes the epoch as the arrival and not null.
pub flush-unset_arrival :
    (T : TimeOps)
    → TimeLaws T
    → (e : DwellTimeEvent)
    → flush T (dwell_time (some (record e { arrival_time = none })) ∷ [])
      ≡ record {
        query = build_insert "dwell_time_events" dwell_columns 1;
        args =
            common_args T e.attributes
            ++ time (some (pos 0))
              ∷ time (nullable_timestamp T e.departure_time)
              ∷ int e.dwell_time_seconds
              ∷ [];
      }
        ∷ []
unfolding flush insert_sorted insert_some dwell_args all_args sort_events
flush-unset_arrival T laws e = rw (nullable_timestamp-none T laws, append-nil) refl
