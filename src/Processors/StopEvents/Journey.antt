-- ===== src/Processors/StopEvents/Journey.antt =====
-- A journey of one vehicle through `doStream` of processors/transit/stop_events/stop_event.go: its
-- positions, each read before the state under its key expires.
use tpm_go.Prelude.{ℕ, ◌≡◌, refl, String, Option, some, List, [], ◌∷◌, arith, ap}
use tpm_go.Prelude.Int.{ℤ, ◌+ℤ◌, ◌≤ℤ◌, le→ltb_ℤ}
use tpm_go.Prelude.Text.{eq_refl}
use tpm_go.Events.Timestamp.{hour}
use tpm_go.Events.Attributes.{EventAttributes}
use tpm_go.Events.VehiclePosition.{VehiclePositionEvent}
use tpm_go.Events.Message.{ProtoMessage, vehicle_position}
use tpm_go.StateStore.Interface.{StateStore, TypedLaws}
use tpm_go.Processors.Element.{Element, message}
use tpm_go.Processors.StopEvents.{
  new_message, transitions, previous_attributes, compare_with, receive, process, do_stream,
}
use tpm_go.Processors.StopEvents.Machine.{
  occupied, follow, follow-append, IsFollowed, Named, follow-transitions,
}
use tpm_go.Processors.StopEvents.Turn.{sent-process, live-process}

abbrev pub Positions : Type 0
Positions = List (ℤ × ℤ × EventAttributes × ℕ × ℕ)

abbrev pub position : EventAttributes → ℕ → ℕ → VehiclePositionEvent
position attrs lat long = record { attributes = some attrs; latitude = lat; longitude = long }

-- The positions as elements of the processor's channel.
abbrev pub elements : Positions → List (ℤ × ℤ × Element VehiclePositionEvent)
elements [] = []
elements ((t, u, attrs, lat, long) ∷ ps) =
    (t, u, message (some (position attrs lat long))) ∷ elements ps

-- Positions of the vehicle `v` after the position `previous`, whose state is kept until `end`:
-- each comes before the state of the one before expires, at a named stop, with a change of status
-- that the machine follows.
abbrev pub IsJourney : String → ℤ → EventAttributes → Positions → Type 0
IsJourney v end previous [] = Unit
IsJourney v end previous ((t, u, attrs, lat, long) ∷ ps) =
    (attrs.vehicle_id ≡ v)
    × Named attrs.stop_id
    × (t ≤ℤ end)
    × IsFollowed previous.stop_status attrs.stop_status
    × IsJourney v (u +ℤ hour) attrs ps

abbrev pub last_position : EventAttributes → Positions → EventAttributes
last_position previous [] = previous
last_position previous ((t, u, attrs, lat, long) ∷ ps) = last_position attrs ps

module _ (S : StateStore) (live : ℤ → String → S.State → Option ProtoMessage)
    (L : TypedLaws S live new_message) (unmarshal : List ℕ → Option VehiclePositionEvent)
    (v : String) (named : Named v) where
  -- From `end` back, the store shows a position with these attributes for the vehicle.
  abbrev pub Shows : ℤ → EventAttributes → S.State → Type 0
  Shows end previous s =
      (lat : ℕ) × (long : ℕ) × ((w : ℤ)
        → w ≤ℤ end
        → live w v s ≡ some (some (vehicle_position (some (position previous lat long)))))

  pub Shows-process :
      (t u : ℤ) (end : ℤ) (previous attrs : EventAttributes) (lat long : ℕ) (s : S.State)
      → attrs.vehicle_id ≡ v
      → t ≤ℤ end
      → Shows end previous s
      → Shows (u +ℤ hour) attrs (process S t u (some (position attrs lat long)) s).0
  Shows-process t u end previous attrs lat long s here le (la, lo, shows) = (
    lat,
    long,
    λ w h.
        let event : VehiclePositionEvent = position attrs lat long in
        ground (
          arith,
          live-process S live L t u attrs event s refl (rw here named) w v,
          ap (λ k. live t k s) here,
          shows t le,
          eq_refl v,
          le→ltb_ℤ (u +ℤ hour) w h,
        ),
  )

  pub sent-Shows :
      (t u : ℤ) (end : ℤ) (previous attrs : EventAttributes) (lat long : ℕ) (s : S.State)
      → attrs.vehicle_id ≡ v
      → t ≤ℤ end
      → Shows end previous s
      → (process S t u (some (position attrs lat long)) s).1
        ≡ transitions previous attrs (position attrs lat long)
  unfolding compare_with previous_attributes
  sent-Shows t u end previous attrs lat long s here le (la, lo, shows) =
      let event : VehiclePositionEvent = position attrs lat long in
      ground (
        arith,
        sent-process S live L t u attrs event s refl (rw here named),
        ap (λ k. live t k s) here,
        shows t le,
      )

  -- Given a store that shows the vehicle's previous position until `end`, and a journey of the
  -- vehicle from there, the stop events that are sent, read in order from where the vehicle stood,
  -- make sense one by one and end where its last position says that it stands.
  pub follow-do_stream :
      (end : ℤ) (previous : EventAttributes) (ps : Positions) (s : S.State)
      → Named previous.stop_id
      → Shows end previous s
      → IsJourney v end previous ps
      → follow
          (occupied previous.stop_status previous.stop_id)
          (do_stream S unmarshal (elements ps) s).1
        ≡ some
            (occupied (last_position previous ps).stop_status (last_position previous ps).stop_id)
  unfolding do_stream receive follow
  follow-do_stream end previous [] s np shows j = refl
  follow-do_stream end previous ((t, u, attrs, lat, long) ∷ ps) s np shows (here, na, le, fol, j) =
      let event : VehiclePositionEvent = position attrs lat long in
      let s' : S.State = (process S t u (some event) s).0 in
      let shows' : Shows (u +ℤ hour) attrs s' =
        Shows-process t u end previous attrs lat long s here le shows in
      rw
        (
          follow-append,
          sent-Shows t u end previous attrs lat long s here le shows,
          (follow-transitions previous attrs event np na (rw here named) refl).1 fol,
        )
        (follow-do_stream (u +ℤ hour) attrs ps s' na shows' j)
