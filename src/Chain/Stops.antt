-- ===== src/Chain/Stops.antt =====
-- From the positions of an agency's vehicles to their stop events: the stop event processor over a
-- store that holds nothing else.
use tpm_go.Prelude.{
  ◌≡◌, Bool-cases, Option-cases, inl, inr, String, Option, none, some, All, arith, ◌⊎◌, ap, ◌∙◌,
}
use tpm_go.Prelude.Int.{ℤ}
use tpm_go.Prelude.Text.{◌==◌}
use tpm_go.Events.Timestamp.{TimeOps}
use tpm_go.Events.Attributes
use tpm_go.Events.Attributes.{EventAttributes}
use tpm_go.Events.VehiclePosition.{VehiclePositionEvent}
use tpm_go.Events.Stop.{EventType}
use tpm_go.Events.Message.{ProtoMessage, vehicle_position}
use tpm_go.StateStore.Interface.{StateStore, TypedLaws}
use tpm_go.Processors.VehiclePositions.Sound.{IsPosition}
use tpm_go.Processors.StopEvents.{new_message, make_stop_event, previous_attributes, process}
use tpm_go.Processors.StopEvents.Machine.{Named}
use tpm_go.Processors.StopEvents.Turn.{live-process}
use tpm_go.Processors.StopEvents.Sent.{All-transitions, All-process}
use tpm_go.Chain.Facts.{IsSentStop, IsSeenSomewhere, Holds}

-- The pointer is nil, or its event is a position of the agency.
abbrev pub IsReadPosition : TimeOps → String → Option VehiclePositionEvent → Type 0
IsReadPosition T agency none = Unit
IsReadPosition T agency (some vp) = IsPosition T agency vp

module _ (T : TimeOps) (agency : String) where
  make_stop_event-IsSentStop :
      (vp : VehiclePositionEvent) (stop_id : String) (kind : EventType)
      → IsPosition T agency vp
      → Named (Attributes.get_vehicle_id vp.attributes)
      → Named stop_id
      → IsSentStop T agency (make_stop_event (some vp) stop_id kind)
  unfolding make_stop_event
  make_stop_event-IsSentStop vp stop_id kind h v at = rw (v, at) ((h.0, v, at), h.2, (h.3, h.4))

  module _ (S : StateStore) (live : ℤ → String → S.State → Option ProtoMessage)
      (L : TypedLaws S live new_message) where
    -- What is live after a turn was live before it, or is the position.
    live-after :
        (t u : ℤ) (vp : VehiclePositionEvent) (s : S.State) (w : ℤ) (k : String) (m : ProtoMessage)
        → live w k (process S t u (some vp) s).0 ≡ some m
        → (live w k s ≡ some m) ⊎ (some (vehicle_position (some vp)) ≡ m)
    unfolding process
    live-after t u vp s w k m found = elim (Option-cases vp.attributes) [
      | inl nil ↦ ground arith
      | inr (attrs, here) ↦ elim (Bool-cases (attrs.vehicle_id == "")) [
        | inl empty ↦ ground arith
        | inr named ↦ ground (arith, live-process S live L t u attrs vp s here named w k)
      ]
    ]

    process-Holds :
        (t u : ℤ) (vp : VehiclePositionEvent) (s : S.State)
        → IsPosition T agency vp
        → Holds live IsSeenSomewhere s
        → Holds live IsSeenSomewhere (process S t u (some vp) s).0
    process-Holds t u vp s h i w k m found previous was = elim (live-after t u vp s w k m found) [
      | inl before ↦ i w k m before previous was
      | inr now ↦
          let at : vp.attributes ≡ some previous =
            unfold previous_attributes in (ap previous_attributes now ∙ was) in
          ground (arith, at, h.1)
    ]

    process-IsSentStop :
        (t u : ℤ) (vp : VehiclePositionEvent) (s : S.State)
        → IsPosition T agency vp
        → Holds live IsSeenSomewhere s
        → All (IsSentStop T agency) (process S t u (some vp) s).1
    process-IsSentStop t u vp s h i =
        All-process S live L (IsSentStop T agency) t u vp s
          (λ attrs m previous here named found was.
            let vehicle : Named (Attributes.get_vehicle_id vp.attributes) = rw here named in
            let stop : Named attrs.stop_id = ground (arith, here, h.1) in
            All-transitions (IsSentStop T agency) vp previous attrs
              (λ kind.
                make_stop_event-IsSentStop vp previous.stop_id kind h vehicle
                  (i t attrs.vehicle_id m found previous was))
              (λ kind. make_stop_event-IsSentStop vp attrs.stop_id kind h vehicle stop))

    pub process-keeps :
        (t u : ℤ) (o : Option VehiclePositionEvent) (s : S.State)
        → IsReadPosition T agency o
        → Holds live IsSeenSomewhere s
        → Holds live IsSeenSomewhere (process S t u o s).0
          × All (IsSentStop T agency) (process S t u o s).1
    process-keeps t u none s h i = unfold process in (i, tt)
    process-keeps t u (some vp) s h i =
        (process-Holds t u vp s h i, process-IsSentStop t u vp s h i)
