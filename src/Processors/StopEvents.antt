-- ===== src/Processors/StopEvents.antt =====
-- processors/transit/stop_events/stop_event.go. The constructor always gives the processor a
-- store, so the receiver and its store are not nil. `process` takes the instants at which the
-- store reads the clock, for `Get` and for `Set`; what it sends to `out` is the list beside the
-- store, in order. A nil `*StopEvent` that is sent is `none`.
pub mod Machine
pub mod Turn
pub mod Journey
pub mod Shared
pub mod Sent
pub mod About
pub mod Reference
pub mod Vehicles
use tpm_go.Prelude.{
  ℕ, Bool, true, false, ◌&&◌, ◌||◌, String, Option, none, some, List, [], ◌∷◌, ◌++◌, if◌then◌else◌,
}
use tpm_go.Prelude.Int.{ℤ}
use tpm_go.Prelude.Text.{◌==◌}
use tpm_go.Events.Timestamp.{hour}
use tpm_go.Events.Attributes
use tpm_go.Events.Attributes.{
  StopStatus, incoming_at, stopped_at, in_transit_to, EventAttributes, zero_attributes,
}
use tpm_go.Events.VehiclePosition
use tpm_go.Events.VehiclePosition.{VehiclePositionEvent}
use tpm_go.Events.Stop.{EventType, arrival, departure, StopEvent}
use tpm_go.Events.Message.{ProtoMessage, vehicle_position}
use tpm_go.StateStore.Interface.{StateStore}
use tpm_go.Processors.Element.{Element, bytes, message, other}

unfoldable pub make_stop_event : Option VehiclePositionEvent → String → EventType → Option StopEvent
make_stop_event none stop_id event_type = none
make_stop_event (some vp) stop_id event_type =
    let a = vp.attributes in
    let vehicle_id = Attributes.get_vehicle_id a in
    if vehicle_id == "" || stop_id == ""
    then none
    else some (record {
      attributes = some (record zero_attributes {
        agency_id = Attributes.get_agency_id a;
        route_id = Attributes.get_route_id a;
        stop_id = stop_id;
        direction_id = Attributes.get_direction_id a;
        stop_sequence = Attributes.get_stop_sequence a;
        trip_id = Attributes.get_trip_id a;
        service_date = Attributes.get_service_date a;
        timestamp = Attributes.get_timestamp a;
        vehicle_id = vehicle_id;
        stop_status = Attributes.get_stop_status a;
      });
      stop_event_type = event_type;
    })

abbrev pub same_status : StopStatus → StopStatus → Bool
same_status StopStatus.unknown StopStatus.unknown = true
same_status incoming_at incoming_at = true
same_status stopped_at stopped_at = true
same_status in_transit_to in_transit_to = true
same_status _ _ = false

-- The switch at the end of `process`: the previous status, then the current one.
unfoldable pub switch_status :
    StopStatus
    → StopStatus
    → Bool
    → String
    → String
    → Option VehiclePositionEvent
    → List (Option StopEvent)
switch_status in_transit_to stopped_at same_stop previous current event =
    make_stop_event event current arrival ∷ []
switch_status incoming_at stopped_at same_stop previous current event =
    make_stop_event event current arrival ∷ []
switch_status stopped_at stopped_at same_stop previous current event =
    if same_stop
    then []
    else make_stop_event event previous departure ∷ make_stop_event event current arrival ∷ []
switch_status stopped_at in_transit_to same_stop previous current event =
    make_stop_event event previous departure ∷ []
switch_status in_transit_to in_transit_to same_stop previous current event =
    if same_stop
    then []
    else make_stop_event event previous arrival ∷ make_stop_event event previous departure ∷ []
switch_status incoming_at in_transit_to same_stop previous current event =
    if same_stop
    then []
    else make_stop_event event previous arrival ∷ make_stop_event event previous departure ∷ []
switch_status _ _ same_stop previous current event = []

-- From "only proceed if there's actually a change" to the end of `process`.
unfoldable pub transitions :
    EventAttributes → EventAttributes → VehiclePositionEvent → List (Option StopEvent)
unfolding switch_status
transitions previous attrs event =
    let same_stop = previous.stop_id == attrs.stop_id in
    if same_status previous.stop_status attrs.stop_status && same_stop
    then []
    else switch_status previous.stop_status attrs.stop_status same_stop previous.stop_id
        attrs.stop_id (some event)

-- `previousState.(*pb.VehiclePositionEvent)`, and the checks of the result
unfoldable pub previous_attributes : ProtoMessage → Option EventAttributes
previous_attributes (some (vehicle_position previous)) = VehiclePosition.get_attributes previous
previous_attributes _ = none

-- The part of `process` after the state was stored.
unfoldable pub compare_with :
    Bool → ProtoMessage → EventAttributes → VehiclePositionEvent → List (Option StopEvent)
compare_with false previous_state attrs event = []
compare_with true previous_state attrs event = elim (previous_attributes previous_state) [
  | none ↦ []
  | some previous ↦ transitions previous attrs event
]

-- The type switch of `doStream`: the argument of `process`, or none where the loop goes on.
unfoldable pub receive :
    (List ℕ → Option VehiclePositionEvent)
    → Element VehiclePositionEvent
    → Option (Option VehiclePositionEvent)
receive unmarshal (message vp) = some vp
receive unmarshal (bytes b) = elim (unmarshal b) [ none ↦ none | some vp ↦ some (some vp) ]
receive unmarshal other = none

-- newMsg()
abbrev pub new_message : ProtoMessage
new_message =
    some (vehicle_position (some (record { attributes = none; latitude = 0; longitude = 0 })))

module _ (S : StateStore) where
  open S use {State, get, set}

  -- From the call of `Set` on.
  store_and_compare :
      ℤ
      → ProtoMessage × Bool
      → EventAttributes
      → VehiclePositionEvent
      → State
      → State × List (Option StopEvent)
  store_and_compare u (none, found) attrs event s = (s, [])
  store_and_compare u (some previous, found) attrs event s =
      let (s', err) = set u attrs.vehicle_id (some (vehicle_position (some event))) hour s in
      elim err [ some e ↦ (s', []) | none ↦ (s', compare_with found (some previous) attrs event) ]

  unfoldable pub process :
      ℤ → ℤ → Option VehiclePositionEvent → State → State × List (Option StopEvent)
  unfolding store_and_compare
  process t u none s = (s, [])
  process t u (some event) s = elim event.attributes [
    | none ↦ (s, [])
    | some attrs ↦
        if attrs.vehicle_id == ""
        then (s, [])
        else store_and_compare u (get t attrs.vehicle_id new_message s) attrs event s
  ]

  -- The elements of `in`, each with the two instants of its turn. `unmarshal` is
  -- `proto.Unmarshal` into a new event: `none` where it fails.
  unfoldable pub do_stream :
      (List ℕ → Option VehiclePositionEvent)
      → List (ℤ × ℤ × Element VehiclePositionEvent)
      → State
      → State × List (Option StopEvent)
  do_stream unmarshal [] s = (s, [])
  do_stream unmarshal ((t, u, element) ∷ rest) s = elim (receive unmarshal element) [
    | none ↦ do_stream unmarshal rest s
    | some vp ↦
        let (s', sent) = process t u vp s in
        let (s'', later) = do_stream unmarshal rest s' in (s'', sent ++ later)
  ]
