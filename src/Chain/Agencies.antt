-- ===== src/Chain/Agencies.antt =====
-- Vehicles of two agencies in one stop event pipeline: the key of its state is the vehicle's id.
use tpm_go.Prelude.{◌≡◌, refl, ℕ, Option, none, some, String, List, [], ◌∷◌, false, arith}
use tpm_go.Prelude.Int.{ℤ, ◌+ℤ◌, ◌≤ℤ◌, le→ltb_ℤ}
use tpm_go.Prelude.Text.{◌==◌, eq_refl}
use tpm_go.Events.Timestamp.{hour}
use tpm_go.Events.Attributes.{stopped_at, EventAttributes}
use tpm_go.Events.VehiclePosition.{VehiclePositionEvent}
use tpm_go.Events.Stop.{arrival, departure}
use tpm_go.Events.Message.{ProtoMessage, vehicle_position}
use tpm_go.StateStore.Interface.{StateStore, TypedLaws}
use tpm_go.Processors.Element.{message}
use tpm_go.Processors.StopEvents.{
  new_message, make_stop_event, previous_attributes, transitions, compare_with, process, receive,
  do_stream,
}
use tpm_go.Processors.StopEvents.Machine.{Named}
use tpm_go.Processors.StopEvents.Turn.{sent-process, live-process, reaction}
use tpm_go.Trips.{event_at}

module _ (S : StateStore) (live : ℤ → String → S.State → Option ProtoMessage)
    (L : TypedLaws S live new_message) (unmarshal : List ℕ → Option VehiclePositionEvent)
    (p q : VehiclePositionEvent) (a b : EventAttributes) (p_is : p.attributes ≡ some a)
    (q_is : q.attributes ≡ some b) (same_id : a.vehicle_id ≡ b.vehicle_id)
    (named : Named b.vehicle_id) (a_stands : a.stop_status ≡ stopped_at)
    (b_stands : b.stop_status ≡ stopped_at) (a_named : Named a.stop_id) (b_named : Named b.stop_id)
    (elsewhere : (a.stop_id == b.stop_id) ≡ false) where
  reaction-elsewhere :
      reaction (some (some (vehicle_position (some p)))) b q
      ≡ some (event_at b a.stop_id departure) ∷ some (event_at b b.stop_id arrival) ∷ []
  unfolding compare_with previous_attributes transitions make_stop_event
  reaction-elsewhere = ground arith

  module _ (t u t' u' : ℤ) (s : S.State) (fresh : live t a.vehicle_id s ≡ none)
      (soon : t' ≤ℤ u +ℤ hour) where
    after_first :
        live t' b.vehicle_id (process S t u (some p) s).0 ≡ some (some (vehicle_position (some p)))
    after_first =
        let a_named_id : Named a.vehicle_id = rw same_id named in
        ground (
          arith,
          live-process S live L t u a p s p_is a_named_id t' b.vehicle_id,
          eq_refl b.vehicle_id,
          le→ltb_ℤ (u +ℤ hour) t' soon,
        )

    sent_first : (process S t u (some p) s).1 ≡ []
    sent_first =
        let a_named_id : Named a.vehicle_id = rw same_id named in
        ground (arith, sent-process S live L t u a p s p_is a_named_id)

    sent_second :
        (process S t' u' (some q) (process S t u (some p) s).0).1
        ≡ some (event_at b a.stop_id departure) ∷ some (event_at b b.stop_id arrival) ∷ []
    sent_second =
        rw (sent-process S live L t' u' b q (process S t u (some p) s).0 q_is named, after_first)
          reaction-elsewhere

    -- Over any store that keeps the laws: where nothing is live for a vehicle, and its first position
    -- is at one named stop and the next one, in time, at another, the second turn sends a departure
    -- from the first stop and an arrival at the second, both with the attributes of the second
    -- position but the stop, its agency too: whatever the agencies of the two positions, since only
    -- the vehicle's id has to be the same.
    pub do_stream-same_id :
        (do_stream S unmarshal ((t, u, message (some p)) ∷ (t', u', message (some q)) ∷ []) s).1
        ≡ some (event_at b a.stop_id departure) ∷ some (event_at b b.stop_id arrival) ∷ []
    unfolding do_stream receive
    do_stream-same_id = rw (sent_first, sent_second) refl
