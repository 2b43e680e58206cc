-- ===== src/Events/Headway.antt =====
-- api/v1/events/transit.pb.go: `HeadwayTimeEvent` and its getters, at a nil pointer too.
use tpm_go.Prelude.{String, Option, none, some}
use tpm_go.Prelude.Int.{ℤ, pos}
use tpm_go.Events.Attributes.{EventAttributes}

pub record HeadwayTimeEvent : Type 0 where
  pub attributes : Option EventAttributes
  pub leading_vehicle_id : String
  pub following_vehicle_id : String
  pub headway_seconds : ℤ

abbrev pub get_attributes : Option HeadwayTimeEvent → Option EventAttributes
get_attributes none = none
get_attributes (some x) = x.attributes

abbrev pub get_leading_vehicle_id : Option HeadwayTimeEvent → String
get_leading_vehicle_id none = ""
get_leading_vehicle_id (some x) = x.leading_vehicle_id

abbrev pub get_following_vehicle_id : Option HeadwayTimeEvent → String
get_following_vehicle_id none = ""
get_following_vehicle_id (some x) = x.following_vehicle_id

abbrev pub get_headway_seconds : Option HeadwayTimeEvent → ℤ
get_headway_seconds none = pos 0
get_headway_seconds (some x) = x.headway_seconds
