-- ===== src/Events/Stop.antt =====
-- api/v1/events/transit.pb.go: `StopEvent` and its getters, at a nil pointer too.
use tpm_go.Prelude.{Option, none, some}
use tpm_go.Events.Attributes.{EventAttributes}

pub data EventType : Type 0 where
  unknown arrival departure : EventType

pub record StopEvent : Type 0 where
  pub attributes : Option EventAttributes
  pub stop_event_type : EventType

abbrev pub get_attributes : Option StopEvent → Option EventAttributes
get_attributes none = none
get_attributes (some x) = x.attributes

abbrev pub get_stop_event_type : Option StopEvent → EventType
get_stop_event_type none = EventType.unknown
get_stop_event_type (some x) = x.stop_event_type
