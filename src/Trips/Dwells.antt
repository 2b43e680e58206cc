-- ===== src/Trips/Dwells.antt =====
-- The dwell times of a vehicle that visits its stops.
use tpm_go.Prelude.{◌≡◌, refl, ap, String, Option, some, List, [], ◌∷◌, arith, ℕ}
use tpm_go.Prelude.Int.{ℤ, pos, ◌+ℤ◌, ◌-ℤ◌}
use tpm_go.Events.Timestamp.{TimeOps, TimeLaws, hour}
use tpm_go.Events.Attributes
use tpm_go.Events.Attributes.{EventAttributes}
use tpm_go.Events.VehiclePosition.{VehiclePositionEvent}
use tpm_go.Events.Dwell.{DwellTimeEvent}
use tpm_go.Events.Stop.{StopEvent}
use tpm_go.Events.Message.{ProtoMessage}
use tpm_go.StateStore.Interface.{StateStore, TypedLaws}
use tpm_go.Processors.Element.{new_stop_event, run_stream}
use tpm_go.Processors.StopEvents
use tpm_go.Processors.StopEvents.{new_message}
use tpm_go.Processors.StopEvents.Machine.{Named}
use tpm_go.Processors.StopEvents.Journey.{elements}
use tpm_go.Processors.Dwell
use tpm_go.Processors.Dwell.{key_of, dwell_seconds, dwell_event, process}
use tpm_go.Processors.Elapsed.{seconds-IsAt}
use tpm_go.Processors.Dwell.Turn.{arrival-sent}
use tpm_go.Processors.Dwell.Pairing.{arrival-departure}
use tpm_go.Trips.{
  Visit, IsVisit, AreVisits, positions, arrival_of, departure_of, stop_events, deliver, instants,
}
use tpm_go.Trips.Stops.{Showing, do_stream-stop_events}

-- Of a dwell time: the vehicle, the stop and the seconds.
abbrev pub Summary : Type 0
Summary = String × String × ℤ

abbrev pub summary : DwellTimeEvent → Summary
summary d = (
  Attributes.get_vehicle_id d.attributes,
  Attributes.get_stop_id d.attributes,
  d.dwell_time_seconds,
)

abbrev pub summaries : List DwellTimeEvent → List Summary
summaries [] = []
summaries (d ∷ ds) = summary d ∷ summaries ds

abbrev pub stays_of : String → List Visit → List Summary
stays_of v [] = []
stays_of v (V ∷ Vs) = (v, V.arrive.attrs.stop_id, pos V.n -ℤ pos V.m) ∷ stays_of v Vs

module _ (T : TimeOps) (K : TimeLaws T) (v : String) where
  module _ (S : StateStore) (live : ℤ → String → S.State → Option ProtoMessage)
      (L : TypedLaws S live new_stop_event) where
    dwells-visit :
        (end : ℤ) (p : EventAttributes) (V : Visit) (s : S.State)
        → IsVisit T v end p V
        → let s₁ = (process T S V.read_arrival.0 V.read_arrival.1 (some (arrival_of V)) s).0 in
          (process T S V.read_departure.0 V.read_departure.1 (some (departure_of V)) s₁).1
          ≡ dwell_event T (arrival_of V) (departure_of V) ∷ []
    unfolding Dwell.do_stream run_stream key_of
    dwells-visit end p V s k =
        let a : StopEvent = arrival_of V in
        let d : StopEvent = departure_of V in
        let (sent, _, _) =
          arrival-departure T S live L K V.read_arrival.0 V.read_arrival.1 V.read_departure.0
            V.read_departure.1 a d V.m V.n [] s refl refl
            (rw (k.same_agency, k.same_route, k.same_direction, k.arrive.vehicle, k.leave.vehicle)
              refl)
            k.read_soon (k.arrive.instant, k.arrive.era) (k.leave.instant, k.leave.era) tt in
        ground (arith, sent, k.ordered)

    seconds-visit :
        (end : ℤ) (p : EventAttributes) (V : Visit)
        → IsVisit T v end p V
        → summary (dwell_event T (arrival_of V) (departure_of V))
          ≡ (v, V.arrive.attrs.stop_id, pos V.n -ℤ pos V.m)
    unfolding dwell_event dwell_seconds
    seconds-visit end p V k =
        let seconds =
          seconds-IsAt T K (arrival_of V) (departure_of V) V.m V.n (k.arrive.instant, k.arrive.era)
            (k.leave.instant, k.leave.era) in
        rw (seconds, k.leave.vehicle) refl

    dwells :
        (end : ℤ) (p : EventAttributes) (Vs : List Visit) (s : S.State)
        → AreVisits T v end p Vs
        → summaries (Dwell.do_stream T S (deliver (instants Vs) (stop_events Vs)) s).1
          ≡ stays_of v Vs
    unfolding Dwell.do_stream run_stream
    dwells end p [] s k = refl
    dwells end p (V ∷ Vs) s (k, ks) =
        let a : StopEvent = arrival_of V in
        let s₁ : S.State = (process T S V.read_arrival.0 V.read_arrival.1 (some a) s).0 in
        rw
          (
            arrival-sent T S live L V.read_arrival.0 V.read_arrival.1 a s refl,
            dwells-visit end p V s k,
          )
          (rw (seconds-visit end p V k) (
            ap (λ l. (v, V.arrive.attrs.stop_id, pos V.n -ℤ pos V.m) ∷ l)
              (dwells (V.leave.u +ℤ hour) V.leave.attrs Vs _ ks)))

  -- Where the store of the stop event processor shows the named vehicle `v` on its way to the
  -- first stop, and its positions are those of visits to stops, the dwell processor, fed with the
  -- stop events that are sent for the positions, sends one dwell time for each visit, in their
  -- order: with the vehicle, the stop that is visited and the seconds from the first position at
  -- the stop to the first position on the way to the next. A visit to a stop is: any positions on
  -- the way to it, a first position at it, any more at it, and a first one in transit to the next,
  -- each read within an hour of the last, and the departure within an hour of the arrival. The
  -- first at the stop and the first after it have the same agency, route and direction and
  -- timestamps that are whole seconds from the epoch to 2038, in order.
  pub dwell_times-visits :
      (S₁ S₂ : StateStore) (live₁ : ℤ → String → S₁.State → Option ProtoMessage)
      (live₂ : ℤ → String → S₂.State → Option ProtoMessage) (L₁ : TypedLaws S₁ live₁ new_message)
      (L₂ : TypedLaws S₂ live₂ new_stop_event) (unmarshal : List ℕ → Option VehiclePositionEvent)
      (named : Named v) (end : ℤ) (p : EventAttributes) (Vs : List Visit) (s₁ : S₁.State)
      (s₂ : S₂.State)
      → Showing S₁ live₁ L₁ unmarshal v named end p s₁
      → AreVisits T v end p Vs
      → let sent = (StopEvents.do_stream S₁ unmarshal (elements (positions Vs)) s₁).1 in
        summaries (Dwell.do_stream T S₂ (deliver (instants Vs) sent) s₂).1 ≡ stays_of v Vs
  dwell_times-visits S₁ S₂ live₁ live₂ L₁ L₂ unmarshal named end p Vs s₁ s₂ showing k =
      rw (do_stream-stop_events S₁ live₁ L₁ unmarshal v named T end p Vs s₁ showing k)
        (dwells S₂ live₂ L₂ end p Vs s₂ k)
