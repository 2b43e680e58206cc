-- ===== src/Tests/Positions.antt =====
-- Vehicles of a feed, and instances of the theorem on positions.
use tpm_go.Prelude.{◌≡◌, ℕ, refl, Option, none, some, String, List, [], ◌∷◌, map}
use tpm_go.Prelude.Decimal.{format_uint}
use tpm_go.Prelude.Int.{pos, negsuc, ◌*ℤ◌}
use tpm_go.Events.VehiclePosition.{VehiclePositionEvent}
use tpm_go.Events.Attributes
use tpm_go.Events.Attributes.{stopped_at}
use tpm_go.Events.Feed.{Gtfs}
use tpm_go.Processors.Element.{Element, message, bytes, other}
use tpm_go.Processors.FeedMessages
use tpm_go.Processors.VehiclePositions.{do_stream}
use tpm_go.Processors.VehiclePositions.Sound.{messages}
use tpm_go.Tests.Base.{exact}

positions : Unit {0}
unfolding do_stream FeedMessages.do_stream format_uint ◌*ℤ◌
positions = tt

-- Bindings in which a feed is the list of the stops of its vehicles, all of the same trip.
abbrev pub bindings : Gtfs
bindings = record {
  FeedMessage = List String;
  FeedEntity = String;
  VehiclePosition = String;
  VehicleDescriptor = String;
  TripDescriptor = String;
  Position = ℕ;
  get_entity = λ feed. elim feed [ none ↦ [] | some stops ↦ map some stops ];
  get_vehicle = λ entity. entity;
  get_current_status = λ v. pos 1;
  get_stop_id = λ v. elim v [ none ↦ "" | some stop ↦ stop ];
  get_current_stop_sequence = λ v. 4294967295;
  get_timestamp = λ v. 1700000000;
  get_descriptor = λ v. none;
  get_trip = λ v. none;
  get_position = λ v. none;
  get_id = λ v. "";
  get_trip_id = λ v. "t1";
  get_route_id = λ v. "Red";
  get_start_date = λ v. "20240101";
  get_direction_id = λ v. 120;
  get_latitude = λ v. 0;
  get_longitude = λ v. 0;
  in_transit_to_number = pos 2;
  stopped_at_number = pos 1;
  incoming_at_number = pos 0;
}

abbrev pub unmarshal : List ℕ → Option (List String)
unmarshal [] = none
unmarshal _ = some ("A" ∷ [])

-- Bytes that do not parse, another message, and a feed with a vehicle that has no stop.
abbrev received : List (Element (List String))
received = bytes [] ∷ other ∷ message (some ("A" ∷ "" ∷ "B" ∷ [])) ∷ bytes (1 ∷ []) ∷ []

abbrev sent : List VehiclePositionEvent
sent =
    do_stream exact bindings (λ n. n)
      (messages (FeedMessages.do_stream bindings "MBTA" unmarshal received))

stops_sent : map (λ e. Attributes.get_stop_id e.attributes) sent ≡ "A" ∷ "B" ∷ "A" ∷ []
unfolding positions
stops_sent = refl

fields_sent : map (λ e. Attributes.get_direction_id e.attributes) sent ≡ "120" ∷ "120" ∷ "120" ∷ []
unfolding positions
fields_sent = refl

-- A stop sequence beyond the range of an int32 wraps round.
sequences_sent :
    map (λ e. Attributes.get_stop_sequence e.attributes) sent ≡ negsuc 0 ∷ negsuc 0 ∷ negsuc 0 ∷ []
unfolding positions
sequences_sent = refl
