-- ===== src/Trips/Stops.antt =====
-- The stop events of a vehicle that visits its stops.
use tpm_go.Prelude.{
  ◌≡◌, refl, sym, ap, ◌∙◌, true, String, Option, some, List, [], ◌∷◌, ◌++◌, arith, ℕ,
}
use mathlib.Core.List.{append-nil}
use tpm_go.Prelude.Int.{ℤ, ◌+ℤ◌, ◌≤ℤ◌}
use tpm_go.Events.Timestamp.{TimeOps, hour}
use tpm_go.Events.Attributes.{stopped_at, in_transit_to, EventAttributes}
use tpm_go.Events.VehiclePosition.{VehiclePositionEvent}
use tpm_go.Events.Stop.{EventType, arrival, departure, StopEvent}
use tpm_go.Events.Message.{ProtoMessage}
use tpm_go.StateStore.Interface.{StateStore, TypedLaws}
use tpm_go.Processors.StopEvents.{
  make_stop_event, switch_status, transitions, new_message, receive, do_stream,
}
use tpm_go.Processors.StopEvents.Machine.{Named}
use tpm_go.Processors.StopEvents.Journey.{
  Positions, position, elements, last_position, Shows, Shows-process, sent-Shows,
}
use tpm_go.Trips.{
  is_moving, is_stopped, last_end, Sighting, turn, Visit, IsVisit, AreVisits, positions_of,
  positions, event_at, arrival_of, departure_of, stop_events,
}
use tpm_go.Trips.Quiet.{is_moving-IsCalm, is_stopped-IsCalm, do_stream-append, quiet}

make_stop_event-event_at :
    (a : EventAttributes) (lat long : ℕ) (stop : String) (kind : EventType)
    → Named a.vehicle_id
    → Named stop
    → make_stop_event (some (position a lat long)) stop kind ≡ some (event_at a stop kind)
unfolding make_stop_event
make_stop_event-event_at a lat long stop kind nv ns = rw (nv, ns) refl

transitions-arrival :
    (p a : EventAttributes) (lat long : ℕ)
    → is_moving p.stop_status ≡ true
    → a.stop_status ≡ stopped_at
    → Named a.vehicle_id
    → Named a.stop_id
    → transitions p a (position a lat long) ≡ some (event_at a a.stop_id arrival) ∷ []
unfolding transitions switch_status
transitions-arrival p a lat long hp ha nv ns =
    ground (arith, hp, ha, make_stop_event-event_at a lat long a.stop_id arrival nv ns)

transitions-departure :
    (p a : EventAttributes) (lat long : ℕ)
    → is_stopped p.stop_status ≡ true
    → a.stop_status ≡ in_transit_to
    → Named a.vehicle_id
    → Named p.stop_id
    → transitions p a (position a lat long) ≡ some (event_at a p.stop_id departure) ∷ []
unfolding transitions switch_status
transitions-departure p a lat long hp ha nv ns =
    ground (arith, hp, ha, make_stop_event-event_at a lat long p.stop_id departure nv ns)

module _ (S : StateStore) (live : ℤ → String → S.State → Option ProtoMessage)
    (L : TypedLaws S live new_message) (unmarshal : List ℕ → Option VehiclePositionEvent)
    (v : String) (named : Named v) where
  abbrev pub Showing : ℤ → EventAttributes → S.State → Type 0
  Showing = Shows S live L unmarshal v named

  -- A run over the positions sends the events, and leaves the store with the last position.
  abbrev Goes : Positions → S.State → List (Option StopEvent) → ℤ → EventAttributes → Type 0
  Goes ps s sent end last =
      ((do_stream S unmarshal (elements ps) s).1 ≡ sent)
      × Showing end last (do_stream S unmarshal (elements ps) s).0

  Goes-append :
      (ps qs : Positions) (s : S.State) (a b : List (Option StopEvent)) (e e' : ℤ)
      (p p' : EventAttributes)
      → Goes ps s a e p
      → Goes qs (do_stream S unmarshal (elements ps) s).0 b e' p'
      → Goes (ps ++ qs) s (a ++ b) e' p'
  Goes-append ps qs s a b e e' p p' (sent, _) (later, showing) =
      rw (do_stream-append S unmarshal ps qs s) (rw (sent, later) refl, showing)

  Goes-turn :
      (end : ℤ) (p : EventAttributes) (X : Sighting) (s : S.State)
      → Showing end p s
      → X.attrs.vehicle_id ≡ v
      → X.t ≤ℤ end
      → Goes
          (turn X ∷ [])
          s
          (transitions p X.attrs (position X.attrs X.lat X.long))
          (X.u +ℤ hour)
          X.attrs
  unfolding do_stream receive
  Goes-turn end p X s showing here soon = (
    append-nil _
        ∙ sent-Shows S live L unmarshal v named X.t X.u end p X.attrs X.lat X.long s here soon
            showing,
    Shows-process S live L unmarshal v named X.t X.u end p X.attrs X.lat X.long s here soon showing,
  )

  Goes-visit :
      (T : TimeOps) (end : ℤ) (p : EventAttributes) (V : Visit) (s : S.State)
      → Showing end p s
      → IsVisit T v end p V
      → Goes
          (positions_of V)
          s
          (some (arrival_of V) ∷ some (departure_of V) ∷ [])
          (V.leave.u +ℤ hour)
          V.leave.attrs
  Goes-visit T end p V s showing k =
      let a : EventAttributes = V.arrive.attrs in
      let d : EventAttributes = V.leave.attrs in
      let s₁ : S.State = (do_stream S unmarshal (elements V.approach) s).0 in
      let p₁ : EventAttributes = last_position p V.approach in
      let (nothing₁, showing₁, moving₁, at₁) =
        quiet S live L unmarshal v named is_moving is_moving-IsCalm p.stop_id end p V.approach s
          refl k.moving showing k.approach in
      let arrived : Goes (turn V.arrive ∷ []) s₁ (some (arrival_of V) ∷ []) (V.arrive.u +ℤ hour) a =
        rw⁻¹
          (transitions-arrival p₁ a V.arrive.lat V.arrive.long moving₁ k.arrive.stop_status
            (rw k.arrive.vehicle named) (rw k.at k.named))
          (Goes-turn (last_end end V.approach) p₁ V.arrive s₁ showing₁ k.arrive.vehicle
            k.arrive.soon) in
      let s₂ : S.State = (do_stream S unmarshal (elements (turn V.arrive ∷ [])) s₁).0 in
      let p₃ : EventAttributes = last_position a V.stays in
      let (nothing₃, showing₃, stopped₃, at₃) =
        quiet S live L unmarshal v named is_stopped is_stopped-IsCalm p.stop_id (V.arrive.u +ℤ hour)
          a V.stays s₂ k.at (rw k.arrive.stop_status refl) arrived.1 k.stays in
      let s₃ : S.State = (do_stream S unmarshal (elements V.stays) s₂).0 in
      let left =
        Goes-turn (last_end (V.arrive.u +ℤ hour) V.stays) p₃ V.leave s₃ showing₃ k.leave.vehicle
          k.leave.soon in
      let departed : transitions p₃ d (position d V.leave.lat V.leave.long)
          ≡ some (departure_of V) ∷ [] =
        transitions-departure p₃ d V.leave.lat V.leave.long stopped₃ k.leave.stop_status
          (rw k.leave.vehicle named) (rw at₃ k.named)
        ∙ ap (λ x. some (event_at d x departure) ∷ []) (at₃ ∙ sym k.at) in
      Goes-append V.approach _ s [] _ (last_end end V.approach) _ p₁ d (nothing₁, showing₁)
        (Goes-append (turn V.arrive ∷ []) _ s₁ (some (arrival_of V) ∷ []) _ (V.arrive.u +ℤ hour) _ a
          d arrived
          (Goes-append V.stays _ s₂ [] (some (departure_of V) ∷ []) _ _ p₃ d (nothing₃, showing₃)
            (left.0 ∙ departed, left.1)))

  pub do_stream-stop_events :
      (T : TimeOps) (end : ℤ) (p : EventAttributes) (Vs : List Visit) (s : S.State)
      → Showing end p s
      → AreVisits T v end p Vs
      → (do_stream S unmarshal (elements (positions Vs)) s).1 ≡ stop_events Vs
  unfolding do_stream
  do_stream-stop_events T end p [] s showing k = refl
  do_stream-stop_events T end p (V ∷ Vs) s showing (k, ks) =
      let (sent, showing') = Goes-visit T end p V s showing k in
      rw (do_stream-append S unmarshal (positions_of V) (positions Vs) s, sent)
        (ap (λ l. some (arrival_of V) ∷ some (departure_of V) ∷ l)
          (do_stream-stop_events T (V.leave.u +ℤ hour) V.leave.attrs Vs _ showing' ks))
