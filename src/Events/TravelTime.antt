-- ===== src/Events/TravelTime.antt =====
-- api/v1/events/transit.pb.go: `TravelTimeEvent` and its getters, at a nil pointer too.
use tpm_go.Prelude.{Option, none, some}
use tpm_go.Prelude.Int.{ℤ, pos}
use tpm_go.Events.Attributes.{EventAttributes}
use tpm_go.Events.Timestamp.{Timestamp}

pub record TravelTimeEvent : Type 0 where
  pub attributes : Option EventAttributes
  pub start_time : Option Timestamp
  pub end_time : Option Timestamp
  pub travel_time_seconds : ℤ

abbrev pub get_attributes : Option TravelTimeEvent → Option EventAttributes
get_attributes none = none
get_attributes (some x) = x.attributes

abbrev pub get_start_time : Option TravelTimeEvent → Option Timestamp
get_start_time none = none
get_start_time (some x) = x.start_time

abbrev pub get_end_time : Option TravelTimeEvent → Option Timestamp
get_end_time none = none
get_end_time (some x) = x.end_time

abbrev pub get_travel_time_seconds : Option TravelTimeEvent → ℤ
get_travel_time_seconds none = pos 0
get_travel_time_seconds (some x) = x.travel_time_seconds
