-- ===== src/Events/VehiclePosition.antt =====
-- api/v1/events/transit.pb.go: `VehiclePositionEvent` and its getters, at a nil pointer too.
-- A `float64` is its bit pattern.
use tpm_go.Prelude.{ℕ, Option, none, some}
use tpm_go.Events.Attributes.{EventAttributes}

pub record VehiclePositionEvent : Type 0 where
  pub attributes : Option EventAttributes
  pub latitude : ℕ
  pub longitude : ℕ

abbrev pub get_attributes : Option VehiclePositionEvent → Option EventAttributes
get_attributes none = none
get_attributes (some x) = x.attributes

abbrev pub get_latitude : Option VehiclePositionEvent → ℕ
get_latitude none = 0
get_latitude (some x) = x.latitude

abbrev pub get_longitude : Option VehiclePositionEvent → ℕ
get_longitude none = 0
get_longitude (some x) = x.longitude
