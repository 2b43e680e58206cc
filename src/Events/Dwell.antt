-- ===== src/Events/Dwell.antt =====
-- api/v1/events/transit.pb.go: `DwellTimeEvent` and its getters, at a nil pointer too.
use tpm_go.Prelude.{Option, none, some}
use tpm_go.Prelude.Int.{ℤ, pos}
use tpm_go.Events.Attributes.{EventAttributes}
use tpm_go.Events.Timestamp.{Timestamp}

pub record DwellTimeEvent : Type 0 where
  pub attributes : Option EventAttributes
  pub arrival_time : Option Timestamp
  pub departure_time : Option Timestamp
  pub dwell_time_seconds : ℤ

abbrev pub get_attributes : Option DwellTimeEvent → Option EventAttributes
get_attributes none = none
get_attributes (some x) = x.attributes

abbrev pub get_arrival_time : Option DwellTimeEvent → Option Timestamp
get_arrival_time none = none
get_arrival_time (some x) = x.arrival_time

abbrev pub get_departure_time : Option DwellTimeEvent → Option Timestamp
get_departure_time none = none
get_departure_time (some x) = x.departure_time

abbrev pub get_dwell_time_seconds : Option DwellTimeEvent → ℤ
get_dwell_time_seconds none = pos 0
get_dwell_time_seconds (some x) = x.dwell_time_seconds
