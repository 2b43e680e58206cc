-- ===== src/Processors/StopEvents/Sent.antt =====
-- What `process` of processors/transit/stop_events/stop_event.go can send: whatever holds of the
-- stop events that it makes for its event, at the stop before and at the stop now.
use tpm_go.Prelude.{
  ◌≡◌, Bool, Bool-cases, inl, inr, Option, none, some, [], All, String, true, false, ◌&&◌, arith,
  ◌||◌, refl, Option-cases,
}
use tpm_go.Prelude.Int.{ℤ}
use tpm_go.Prelude.Text.{◌==◌}
use tpm_go.Events.Attributes.{StopStatus, incoming_at, stopped_at, in_transit_to, EventAttributes}
use tpm_go.Events.VehiclePosition.{VehiclePositionEvent}
use tpm_go.Events.Stop.{EventType, StopEvent}
use tpm_go.Processors.StopEvents.{
  make_stop_event, same_status, switch_status, transitions, compare_with, previous_attributes,
  process, new_message,
}
use tpm_go.Processors.StopEvents.Turn.{reaction, sent-process}
use tpm_go.Processors.StopEvents.Machine.{Named}
use tpm_go.Events.Attributes
use tpm_go.Events.Message.{ProtoMessage}
use tpm_go.StateStore.Interface.{StateStore, TypedLaws}

module _ (P : Option StopEvent → Type 0) (event : VehiclePositionEvent) (previous current : String)
    (at_previous : (kind : EventType) → P (make_stop_event (some event) previous kind))
    (at_current : (kind : EventType) → P (make_stop_event (some event) current kind)) where
  All-switch_status :
      (from to : StopStatus) (same_stop : Bool)
      → All P (switch_status from to same_stop previous current (some event))
  unfolding switch_status
  All-switch_status in_transit_to stopped_at same_stop = (at_current _, tt)
  All-switch_status incoming_at stopped_at same_stop = (at_current _, tt)
  All-switch_status stopped_at stopped_at true = tt
  All-switch_status stopped_at stopped_at false = (at_previous _, (at_current _, tt))
  All-switch_status stopped_at in_transit_to same_stop = (at_previous _, tt)
  All-switch_status in_transit_to in_transit_to true = tt
  All-switch_status in_transit_to in_transit_to false = (at_previous _, (at_previous _, tt))
  All-switch_status incoming_at in_transit_to true = tt
  All-switch_status incoming_at in_transit_to false = (at_previous _, (at_previous _, tt))
  All-switch_status StopStatus.unknown to same_stop = tt
  All-switch_status in_transit_to incoming_at same_stop = tt
  All-switch_status in_transit_to StopStatus.unknown same_stop = tt
  All-switch_status incoming_at incoming_at same_stop = tt
  All-switch_status incoming_at StopStatus.unknown same_stop = tt
  All-switch_status stopped_at incoming_at same_stop = tt
  All-switch_status stopped_at StopStatus.unknown same_stop = tt

pub All-transitions :
    (P : Option StopEvent → Type 0) (event : VehiclePositionEvent)
    (previous attrs : EventAttributes)
    → ((kind : EventType) → P (make_stop_event (some event) previous.stop_id kind))
    → ((kind : EventType) → P (make_stop_event (some event) attrs.stop_id kind))
    → All P (transitions previous attrs event)
unfolding transitions
All-transitions P event previous attrs at_previous at_current =
    elim (Bool-cases
      (same_status previous.stop_status attrs.stop_status && (previous.stop_id == attrs.stop_id))) [
        | inl same ↦ rw same tt
        | inr other ↦ rw other (
            All-switch_status P event previous.stop_id attrs.stop_id at_previous at_current
              previous.stop_status attrs.stop_status (previous.stop_id == attrs.stop_id))
      ]

-- The stop event, if it is not nil, is of the vehicle.
abbrev pub IsOf : String → Option StopEvent → Type 0
IsOf v none = Unit
IsOf v (some e) = Attributes.get_vehicle_id e.attributes ≡ v

make_stop_event-IsOf :
    (event : VehiclePositionEvent) (stop_id : String) (kind : EventType)
    → IsOf (Attributes.get_vehicle_id event.attributes) (make_stop_event (some event) stop_id kind)
unfolding make_stop_event
make_stop_event-IsOf event stop_id kind =
    elim (Bool-cases ((Attributes.get_vehicle_id event.attributes == "") || (stop_id == ""))) [
      | inl nil ↦ rw nil tt
      | inr full ↦ rw full refl
    ]

-- What is sent is what `compare_with` sends, or nothing.
All-compare_with :
    (P : Option StopEvent → Type 0) (m : ProtoMessage) (attrs : EventAttributes)
    (event : VehiclePositionEvent)
    → ((previous : EventAttributes)
        → previous_attributes m ≡ some previous
        → All P (transitions previous attrs event))
    → All P (compare_with true m attrs event)
All-compare_with P m attrs event h = elim (Option-cases (previous_attributes m)) [
  | inl nil ↦
      let nothing : compare_with true m attrs event ≡ [] = unfold compare_with in ground arith in
      rw nothing tt
  | inr (previous, found) ↦
      let changes : compare_with true m attrs event ≡ transitions previous attrs event =
        unfold compare_with in ground arith in
      rw changes (h previous found)
]

pub All-reaction :
    (P : Option StopEvent → Type 0) (o : Option ProtoMessage) (attrs : EventAttributes)
    (event : VehiclePositionEvent)
    → ((m : ProtoMessage) (previous : EventAttributes)
        → o ≡ some m
        → previous_attributes m ≡ some previous
        → All P (transitions previous attrs event))
    → All P (reaction o attrs event)
All-reaction P none attrs event h = tt
All-reaction P (some none) attrs event h = tt
All-reaction P (some (some m)) attrs event h =
    All-compare_with P (some m) attrs event (λ previous. h (some m) previous refl)

module _ (S : StateStore) (live : ℤ → String → S.State → Option ProtoMessage)
    (L : TypedLaws S live new_message) where
  -- A property of all that a turn sends is one of the changes from the state that is live.
  pub All-process :
      (P : Option StopEvent → Type 0) (t u : ℤ) (event : VehiclePositionEvent) (s : S.State)
      → ((attrs : EventAttributes) (m : ProtoMessage) (previous : EventAttributes)
          → event.attributes ≡ some attrs
          → Named attrs.vehicle_id
          → live t attrs.vehicle_id s ≡ some m
          → previous_attributes m ≡ some previous
          → All P (transitions previous attrs event))
      → All P (process S t u (some event) s).1
  All-process P t u event s h = elim (Option-cases event.attributes) [
    | inl nil ↦
        let nothing : (process S t u (some event) s).1 ≡ [] = unfold process in ground arith in
        rw nothing tt
    | inr (attrs, here) ↦ elim (Bool-cases (attrs.vehicle_id == "")) [
      | inl empty ↦
          let nothing : (process S t u (some event) s).1 ≡ [] = unfold process in ground arith in
          rw nothing tt
      | inr named ↦ rw (sent-process S live L t u attrs event s here named) (
          All-reaction P (live t attrs.vehicle_id s) attrs event
            (λ m previous. h attrs m previous here named))
    ]
  ]

  pub process-IsOf :
      (t u : ℤ) (event : VehiclePositionEvent) (s : S.State)
      → All (IsOf (Attributes.get_vehicle_id event.attributes)) (process S t u (some event) s).1
  process-IsOf t u event s =
      All-process (IsOf (Attributes.get_vehicle_id event.attributes)) t u event s
        (λ attrs m previous here named found was.
          All-transitions (IsOf (Attributes.get_vehicle_id event.attributes)) event previous attrs
            (make_stop_event-IsOf event previous.stop_id)
            (make_stop_event-IsOf event attrs.stop_id))
