-- ===== src/Processors/StopEvents/Machine.antt =====
-- The state machine of `process` against a platform: a vehicle stands at a stop or at none, an
-- arrival puts it there, a departure takes it away.
use tpm_go.Prelude.{
  ◌≡◌, ◌↔◌, refl, inl, inr, Option-cases, ◌++◌, false, ◌&&◌, String, Option, none, some, List, [],
  ◌∷◌, arith, if◌then◌else◌,
}
use tpm_go.Prelude.Text.{◌==◌, eq_iff, eq_refl}
use tpm_go.Events.Attributes.{StopStatus, incoming_at, stopped_at, in_transit_to, EventAttributes}
use tpm_go.Events.VehiclePosition.{VehiclePositionEvent}
use tpm_go.Events.Attributes
use tpm_go.Events.Stop.{EventType, arrival, departure, StopEvent}
use tpm_go.Processors.StopEvents.{make_stop_event, same_status, switch_status, transitions}

-- The stop at which a position says that the vehicle stands.
abbrev pub occupied : StopStatus → String → Option String
occupied stopped_at stop = some stop
occupied _ stop = none

abbrev pub follow_one : EventType → String → Option String → Option (Option String)
follow_one arrival stop none = some (some stop)
follow_one departure stop (some at) = if at == stop then some none else none
follow_one _ stop at = none

-- What the events say of the vehicle, from where it stood: none where they make no sense, as an
-- arrival at a second stop, a departure from another stop, or a nil event.
unfoldable pub follow : Option String → List (Option StopEvent) → Option (Option String)
follow at [] = some at
follow at (none ∷ es) = none
follow at (some e ∷ es) =
    elim (follow_one e.stop_event_type (Attributes.get_stop_id e.attributes) at) [
      | none ↦ none
      | some at' ↦ follow at' es
    ]

-- The rest of the events, from where the first ones left the vehicle.
abbrev pub follow_from : Option (Option String) → List (Option StopEvent) → Option (Option String)
follow_from none es = none
follow_from (some at) es = follow at es

pub follow-append :
    (at : Option String) (xs ys : List (Option StopEvent))
    → follow at (xs ++ ys) ≡ follow_from (follow at xs) ys
unfolding follow
follow-append at [] ys = refl
follow-append at (none ∷ xs) ys = refl
follow-append at (some e ∷ xs) ys =
    elim (Option-cases (follow_one e.stop_event_type (Attributes.get_stop_id e.attributes) at)) [
      | inl no_sense ↦ rw (no_sense, follow)
      | inr (at', placed) ↦ rw (placed, follow) (follow-append at' xs ys)
    ]

-- The changes of status that the machine can follow: into `stopped_at` not from `unknown`, and
-- out of `stopped_at` only to `stopped_at` or `in_transit_to`.
abbrev pub IsFollowed : StopStatus → StopStatus → Type 0
IsFollowed StopStatus.unknown stopped_at = ⊥
IsFollowed stopped_at StopStatus.unknown = ⊥
IsFollowed stopped_at incoming_at = ⊥
IsFollowed _ _ = Unit

abbrev pub Named : String → Type 0
Named s = (s == "") ≡ false

module _ (a b : String) (vp : VehiclePositionEvent) (na : Named a) (nb : Named b)
    (nv : Named (Attributes.get_vehicle_id vp.attributes)) where
  follow-switch :
      (p c : StopStatus)
      → (follow
            (occupied p a)
            (if same_status p c && (a == b) then [] else switch_status p c (a == b) a b (some vp))
          ≡ some (occupied c b))
        ↔ IsFollowed p c
  unfolding follow switch_status make_stop_event
  follow-switch stopped_at incoming_at = ground (arith, eq_iff a b, eq_refl a, eq_refl b)
  follow-switch p c = ground (arith, eq_iff a b, eq_refl a, eq_refl b)

-- What `process` sends for a change of position says exactly where the vehicle stands now, given
-- where it stood, if and only if the change of status is one that the machine follows. The two
-- stops and the vehicle are named.
pub follow-transitions :
    (previous attrs : EventAttributes) (event : VehiclePositionEvent)
    → Named previous.stop_id
    → Named attrs.stop_id
    → Named attrs.vehicle_id
    → event.attributes ≡ some attrs
    → (follow (occupied previous.stop_status previous.stop_id) (transitions previous attrs event)
        ≡ some (occupied attrs.stop_status attrs.stop_id))
      ↔ IsFollowed previous.stop_status attrs.stop_status
unfolding transitions
follow-transitions previous attrs event np na nv e =
    follow-switch previous.stop_id attrs.stop_id event np na (rw e nv) previous.stop_status
      attrs.stop_status
