-- ===== src/Trips.antt =====
-- Processors in a row, as the pipelines are: vehicles that serve their stops, seen by
-- processors/transit/stop_events/stop_event.go, and what the dwell, travel time and headway
-- processors make of the stop events.
pub mod Quiet
pub mod Stops
pub mod Dwells
pub mod Travels
pub mod Fleet
pub mod Headways
use tpm_go.Prelude.{ℕ, ◌≡◌, ◌≤◌, Bool, true, false, String, Option, none, some, List, [], ◌∷◌, ◌++◌}
use tpm_go.Prelude.Int.{ℤ, pos, ◌+ℤ◌, ◌≤ℤ◌}
use tpm_go.Events.Timestamp.{Timestamp, TimeOps, hour}
use tpm_go.Events.Timestamp.Elapsed.{IsInEra, at_second}
use tpm_go.Events.Attributes.{
  StopStatus, incoming_at, stopped_at, in_transit_to, EventAttributes, zero_attributes,
}
use tpm_go.Events.Stop.{EventType, arrival, departure, StopEvent}
use tpm_go.Processors.Element.{Element, message}
use tpm_go.Processors.StopEvents.Machine.{Named}
use tpm_go.Processors.StopEvents.Journey.{Positions, last_position}

abbrev pub is_moving : StopStatus → Bool
is_moving in_transit_to = true
is_moving incoming_at = true
is_moving _ = false

abbrev pub is_stopped : StopStatus → Bool
is_stopped stopped_at = true
is_stopped _ = false

-- A position, with the instants of its turn.
pub record Sighting : Type 0 where
  pub t : ℤ
  pub u : ℤ
  pub attrs : EventAttributes
  pub lat : ℕ
  pub long : ℕ

abbrev pub turn : Sighting → ℤ × ℤ × EventAttributes × ℕ × ℕ
turn p = (p.t, p.u, p.attrs, p.lat, p.long)

-- A visit to a stop: positions on the way there, the first at the stop, at the second `m`, more at
-- the stop, and the first on the way to the next, at the second `n`; and the instants at which the
-- next processor turns to the two stop events.
pub record Visit : Type 0 where
  pub approach : Positions
  pub arrive : Sighting
  pub stays : Positions
  pub leave : Sighting
  pub m : ℕ
  pub n : ℕ
  pub read_arrival : ℤ × ℤ
  pub read_departure : ℤ × ℤ

abbrev pub positions_of : Visit → Positions
positions_of V = V.approach ++ turn V.arrive ∷ (V.stays ++ turn V.leave ∷ [])

abbrev pub positions : List Visit → Positions
positions [] = []
positions (V ∷ Vs) = positions_of V ++ positions Vs

-- Until when the state of the last position is kept.
abbrev pub last_end : ℤ → Positions → ℤ
last_end end [] = end
last_end end ((t, u, attrs, lat, long) ∷ ps) = last_end (u +ℤ hour) ps

-- Positions of the vehicle at one stop, all with a status of one kind, each in time.
abbrev pub IsQuiet : (StopStatus → Bool) → String → String → ℤ → Positions → Type 0
IsQuiet kind v stop end [] = Unit
IsQuiet kind v stop end ((t, u, attrs, lat, long) ∷ ps) =
    (attrs.vehicle_id ≡ v)
    × (attrs.stop_id ≡ stop)
    × (kind attrs.stop_status ≡ true)
    × (t ≤ℤ end)
    × IsQuiet kind v stop (u +ℤ hour) ps

-- A position of the vehicle with a status, in time, at a whole second of the era.
pub record IsSeen (T : TimeOps) (v : String) (status : StopStatus) (end : ℤ) (n : ℕ) (p : Sighting)
    : Type 0 where
  pub vehicle : p.attrs.vehicle_id ≡ v
  pub stop_status : p.attrs.stop_status ≡ status
  pub soon : p.t ≤ℤ end
  pub instant : T.as_time p.attrs.timestamp ≡ at_second n
  pub era : IsInEra n

-- A visit of the vehicle to the stop to which the position `p` says that it is on its way.
pub record IsVisit (T : TimeOps) (v : String) (end : ℤ) (p : EventAttributes) (V : Visit)
    : Type 0 where
  pub named : Named p.stop_id
  pub moving : is_moving p.stop_status ≡ true
  pub approach : IsQuiet is_moving v p.stop_id end V.approach
  pub arrive : IsSeen T v stopped_at (last_end end V.approach) V.m V.arrive
  pub at : V.arrive.attrs.stop_id ≡ p.stop_id
  pub stays : IsQuiet is_stopped v p.stop_id (V.arrive.u +ℤ hour) V.stays
  pub leave : IsSeen T v in_transit_to (last_end (V.arrive.u +ℤ hour) V.stays) V.n V.leave
  pub same_agency : V.leave.attrs.agency_id ≡ V.arrive.attrs.agency_id
  pub same_route : V.leave.attrs.route_id ≡ V.arrive.attrs.route_id
  pub same_direction : V.leave.attrs.direction_id ≡ V.arrive.attrs.direction_id
  pub ordered : V.m ≤ V.n
  pub read_soon : V.read_departure.0 ≤ℤ V.read_arrival.1 +ℤ hour

abbrev pub AreVisits : TimeOps → String → ℤ → EventAttributes → List Visit → Type 0
AreVisits T v end p [] = Unit
AreVisits T v end p (V ∷ Vs) =
    IsVisit T v end p V × AreVisits T v (V.leave.u +ℤ hour) V.leave.attrs Vs

-- The stop event of a position with these attributes, at a stop.
abbrev pub event_at : EventAttributes → String → EventType → StopEvent
event_at a stop kind = record {
  attributes = some (record zero_attributes {
    agency_id = a.agency_id;
    route_id = a.route_id;
    stop_id = stop;
    direction_id = a.direction_id;
    stop_sequence = a.stop_sequence;
    trip_id = a.trip_id;
    service_date = a.service_date;
    timestamp = a.timestamp;
    vehicle_id = a.vehicle_id;
    stop_status = a.stop_status;
  });
  stop_event_type = kind;
}

-- The stop that is visited is that of the arrival.
abbrev pub arrival_of : Visit → StopEvent
arrival_of V = event_at V.arrive.attrs V.arrive.attrs.stop_id arrival

abbrev pub departure_of : Visit → StopEvent
departure_of V = event_at V.leave.attrs V.arrive.attrs.stop_id departure

abbrev pub stop_events : List Visit → List (Option StopEvent)
stop_events [] = []
stop_events (V ∷ Vs) = some (arrival_of V) ∷ some (departure_of V) ∷ stop_events Vs

-- The stop events as elements of the next processor's channel, each with the instants of its turn.
abbrev pub deliver : List (ℤ × ℤ) → List (Option StopEvent) → List (ℤ × ℤ × Element StopEvent)
deliver ((t, u) ∷ rs) (e ∷ es) = (t, u, message e) ∷ deliver rs es
deliver _ _ = []

abbrev pub instants : List Visit → List (ℤ × ℤ)
instants [] = []
instants (V ∷ Vs) = V.read_arrival ∷ V.read_departure ∷ instants Vs
