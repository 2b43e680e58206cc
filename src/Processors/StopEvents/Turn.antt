-- ===== src/Processors/StopEvents/Turn.antt =====
-- One turn of `process` in processors/transit/stop_events/stop_event.go, over any store that keeps
-- the laws.
use tpm_go.Prelude.{
  ◌≡◌, refl, Bool, true, false, String, Option, none, some, List, [], arith, if◌then◌else◌,
}
use tpm_go.Prelude.Int.{ℤ, ◌+ℤ◌}
use tpm_go.Prelude.Text.{◌==◌}
use tpm_go.Events.Timestamp.{hour}
use tpm_go.Events.Attributes.{EventAttributes}
use tpm_go.Events.VehiclePosition.{VehiclePositionEvent}
use tpm_go.Events.Stop.{StopEvent}
use tpm_go.Events.Message.{ProtoMessage, vehicle_position}
use tpm_go.StateStore.Interface.{StateStore, TypedLaws, until}
use tpm_go.Processors.StopEvents.{compare_with, new_message, process}
use tpm_go.Processors.StopEvents.Machine.{Named}

-- What is sent, given what is live for the vehicle.
abbrev pub reaction :
    Option ProtoMessage → EventAttributes → VehiclePositionEvent → List (Option StopEvent)
reaction none attrs event = []
reaction (some none) attrs event = []
reaction (some (some m)) attrs event = compare_with true (some m) attrs event

-- Whether the state is stored: not over a nil message.
abbrev pub is_stored : Option ProtoMessage → Bool
is_stored (some none) = false
is_stored _ = true

module _ (S : StateStore) (live : ℤ → String → S.State → Option ProtoMessage)
    (L : TypedLaws S live new_message) (t u : ℤ) (attrs : EventAttributes)
    (event : VehiclePositionEvent) (s : S.State) (here : event.attributes ≡ some attrs)
    (named : Named attrs.vehicle_id) where
  pub sent-process :
      (process S t u (some event) s).1 ≡ reaction (live t attrs.vehicle_id s) attrs event
  unfolding process compare_with
  sent-process = ground (
    arith,
    L.get-live t attrs.vehicle_id s,
    L.set_succeeds u attrs.vehicle_id (some (vehicle_position (some event))) hour s refl refl,
  )

  pub live-process :
      (w : ℤ) (j : String)
      → live w j (process S t u (some event) s).0 ≡ (
          if is_stored (live t attrs.vehicle_id s)
          then (if attrs.vehicle_id == j
              then until (u +ℤ hour) w (some (vehicle_position (some event)))
              else live w j s)
          else live w j s)
  unfolding process
  live-process w j = ground (
    arith,
    L.get-live t attrs.vehicle_id s,
    L.set_succeeds u attrs.vehicle_id (some (vehicle_position (some event))) hour s refl refl,
    L.live-set u w attrs.vehicle_id j (some (vehicle_position (some event))) hour s refl refl,
  )
