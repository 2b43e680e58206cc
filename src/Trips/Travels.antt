-- ===== src/Trips/Travels.antt =====
-- The travel times of a vehicle that visits its stops on one trip.
use tpm_go.Prelude.{◌≡◌, ◌<◌, refl, ap, false, String, Option, none, some, List, [], ◌∷◌, arith, ℕ}
use tpm_go.Prelude.Int.{ℤ, pos, ◌+ℤ◌, ◌-ℤ◌, ◌≤ℤ◌, le→ltb_ℤ}
use tpm_go.Prelude.Text.{◌==◌, eq_refl}
use tpm_go.Events.Timestamp.{TimeOps, TimeLaws, hour}
use tpm_go.Events.Attributes
use tpm_go.Events.Attributes.{EventAttributes}
use tpm_go.Events.VehiclePosition.{VehiclePositionEvent}
use tpm_go.Events.TravelTime.{TravelTimeEvent}
use tpm_go.Events.Stop.{StopEvent}
use tpm_go.Events.Message.{ProtoMessage, stop}
use tpm_go.StateStore.Interface.{StateStore, TypedLaws}
use tpm_go.Processors.Element.{new_stop_event, run_stream}
use tpm_go.Processors.Elapsed.{IsAt, seconds-IsAt}
use tpm_go.Processors.StopEvents
use tpm_go.Processors.StopEvents.{new_message}
use tpm_go.Processors.StopEvents.Machine.{Named}
use tpm_go.Processors.StopEvents.Journey.{elements}
use tpm_go.Processors.TravelTime
use tpm_go.Processors.TravelTime.{key_of, travel_seconds, travel_time_event, process}
use tpm_go.Processors.TravelTime.Route.{Shows, sent-leg, Shows-leg}
use tpm_go.Trips.{
  Visit, IsVisit, AreVisits, positions, arrival_of, departure_of, stop_events, deliver, instants,
}
use tpm_go.Trips.Stops.{Showing, do_stream-stop_events}

-- Of a travel time: the vehicle, the stops and the seconds.
abbrev pub Summary : Type 0
Summary = String × String × String × ℤ

abbrev pub summary : TravelTimeEvent → Summary
summary e = (
  Attributes.get_vehicle_id e.attributes,
  Attributes.get_origin_stop_id e.attributes,
  Attributes.get_destination_stop_id e.attributes,
  e.travel_time_seconds,
)

abbrev pub summaries : List TravelTimeEvent → List Summary
summaries [] = []
summaries (e ∷ es) = summary e ∷ summaries es

abbrev pub legs_from : String → Visit → List Visit → List Summary
legs_from v V [] = []
legs_from v V (W ∷ Ws) =
    (v, V.arrive.attrs.stop_id, W.arrive.attrs.stop_id, pos W.m -ℤ pos V.m) ∷ legs_from v W Ws

-- From a visit to the next: on one trip, at another stop and later, and the arrivals read within
-- an hour of each other.
pub record IsLeg (V W : Visit) : Type 0 where
  pub route : W.arrive.attrs.route_id ≡ V.arrive.attrs.route_id
  pub direction : W.arrive.attrs.direction_id ≡ V.arrive.attrs.direction_id
  pub trip : W.arrive.attrs.trip_id ≡ V.arrive.attrs.trip_id
  pub elsewhere : (V.arrive.attrs.stop_id == W.arrive.attrs.stop_id) ≡ false
  pub later : V.m < W.m
  pub soon : W.read_arrival.0 ≤ℤ V.read_arrival.1 +ℤ hour

abbrev pub AreLegs : Visit → List Visit → Type 0
AreLegs V [] = Unit
AreLegs V (W ∷ Ws) = IsLeg V W × AreLegs W Ws

module _ (T : TimeOps) (K : TimeLaws T) (v : String) where
  seconds-leg :
      (end end' : ℤ) (p p' : EventAttributes) (V W : Visit)
      → IsVisit T v end p V
      → IsVisit T v end' p' W
      → summary (travel_time_event T (arrival_of V) (arrival_of W))
        ≡ (v, V.arrive.attrs.stop_id, W.arrive.attrs.stop_id, pos W.m -ℤ pos V.m)
  unfolding travel_time_event travel_seconds
  seconds-leg end end' p p' V W k j =
      let seconds =
        seconds-IsAt T K (arrival_of V) (arrival_of W) V.m W.m (k.arrive.instant, k.arrive.era)
          (j.arrive.instant, j.arrive.era) in
      rw (seconds, j.arrive.vehicle) refl

  module _ (S : StateStore) (live : ℤ → String → S.State → Option ProtoMessage)
      (L : TypedLaws S live new_stop_event) (key : String) where
    -- The store shows the arrival of the last visit.
    abbrev IsAfter : Visit → S.State → Type 0
    IsAfter V s =
        (key_of (arrival_of V) ≡ key)
        × Shows T K S live L key (V.read_arrival.1 +ℤ hour) (arrival_of V) s

    departure-ignored :
        (t u : ℤ) (V : Visit) (s : S.State) → process T S t u (some (departure_of V)) s ≡ (s, [])
    unfolding process
    departure-ignored t u V s = refl

    first-IsAfter :
        (V : Visit) (s : S.State)
        → key_of (arrival_of V) ≡ key
        → live V.read_arrival.0 key s ≡ none
        → let (s', sent) = process T S V.read_arrival.0 V.read_arrival.1 (some (arrival_of V)) s in
          IsAfter V s' × (sent ≡ [])
    unfolding process
    first-IsAfter V s here nothing =
        let t : ℤ = V.read_arrival.0 in
        let u : ℤ = V.read_arrival.1 in
        let a : StopEvent = arrival_of V in
        let absent = L.get-live t (key_of a) s in
        let lost = ap (λ j. live t j s) here in
        (
          (
            here,
            λ w le. ground (
              arith,
              absent,
              lost,
              nothing,
              L.live-set u w (key_of a) key (some (stop (some a))) hour s refl refl,
              eq_refl key,
              le→ltb_ℤ (u +ℤ hour) w le,
            ),
          ),
          ground (arith, absent, lost, nothing),
        )

    leg-IsAfter :
        (end end' : ℤ) (p p' : EventAttributes) (V W : Visit) (s : S.State)
        → IsVisit T v end p V
        → IsVisit T v end' p' W
        → IsLeg V W
        → IsAfter V s
        → let (s', sent) = process T S W.read_arrival.0 W.read_arrival.1 (some (arrival_of W)) s in
          IsAfter W s' × (sent ≡ travel_time_event T (arrival_of V) (arrival_of W) ∷ [])
    unfolding key_of
    leg-IsAfter end end' p p' V W s k j leg (here, shows) =
        let a : StopEvent = arrival_of V in
        let b : StopEvent = arrival_of W in
        let there : key_of b ≡ key =
          rw (leg.route, leg.direction, leg.trip, j.arrive.vehicle) (rw k.arrive.vehicle at here) in
        let m_at : IsAt T V.m a = (k.arrive.instant, k.arrive.era) in
        let n_at : IsAt T W.m b = (j.arrive.instant, j.arrive.era) in
        let sent =
          sent-leg T K S live L key (V.read_arrival.1 +ℤ hour) W.read_arrival.0 W.read_arrival.1 a b
            V.m W.m s refl there leg.soon m_at n_at shows leg.elsewhere in
        (
          (
            there,
            Shows-leg T K S live L key (V.read_arrival.1 +ℤ hour) W.read_arrival.0 W.read_arrival.1
                a b V.m W.m s refl there leg.soon m_at n_at shows leg.elsewhere,
          ),
          ground (arith, sent, leg.later),
        )

    travels :
        (end : ℤ) (p : EventAttributes) (V : Visit) (end' : ℤ) (p' : EventAttributes)
        (Ws : List Visit) (s : S.State)
        → IsVisit T v end p V
        → AreVisits T v end' p' Ws
        → AreLegs V Ws
        → IsAfter V s
        → summaries (TravelTime.do_stream T S (deliver (instants Ws) (stop_events Ws)) s).1
          ≡ legs_from v V Ws
    unfolding TravelTime.do_stream run_stream
    travels end p V end' p' [] s k js legs after = refl
    travels end p V end' p' (W ∷ Ws) s k (j, js) (leg, legs) after =
        let (after', sent) = leg-IsAfter end end' p p' V W s k j leg after in
        let s₁ : S.State =
          (process T S W.read_arrival.0 W.read_arrival.1 (some (arrival_of W)) s).0 in
        rw
          (
            sent,
            departure-ignored W.read_departure.0 W.read_departure.1 W s₁,
            seconds-leg end end' p p' V W k j,
          )
          (ap (λ l. (v, V.arrive.attrs.stop_id, W.arrive.attrs.stop_id, pos W.m -ℤ pos V.m) ∷ l)
            (travels end' p' W (W.leave.u +ℤ hour) W.leave.attrs Ws s₁ j js legs after'))

    travels-first :
        (end : ℤ) (p : EventAttributes) (V : Visit) (Vs : List Visit) (s : S.State)
        → AreVisits T v end p (V ∷ Vs)
        → AreLegs V Vs
        → key_of (arrival_of V) ≡ key
        → live V.read_arrival.0 key s ≡ none
        → summaries
            (TravelTime.do_stream T S (deliver (instants (V ∷ Vs)) (stop_events (V ∷ Vs))) s).1
          ≡ legs_from v V Vs
    unfolding TravelTime.do_stream run_stream
    travels-first end p V Vs s (k, ks) legs here nothing =
        let (after, sent) = first-IsAfter V s here nothing in
        let s₁ : S.State =
          (process T S V.read_arrival.0 V.read_arrival.1 (some (arrival_of V)) s).0 in
        rw (sent, departure-ignored V.read_departure.0 V.read_departure.1 V s₁)
          (travels end p V (V.leave.u +ℤ hour) V.leave.attrs Vs s₁ k ks legs after)

  -- Where the store of the stop event processor shows the named vehicle `v` on its way to the
  -- first stop, its positions are those of visits to stops, and nothing is live under the key of
  -- its trip when the first arrival is read: the travel time processor, fed with the stop events
  -- that are sent for the positions, sends one travel time from each visit to the next, in their
  -- order, with the vehicle, the two stops and the seconds from the first position at the one to
  -- the first position at the other. A visit to a stop is: any positions on the way to it, a first
  -- position at it, any more at it, and a first one in transit to the next, each read within an
  -- hour of the last, and the departure within an hour of the arrival. The first at the stop and
  -- the first after it have the same agency, route and direction and timestamps that are whole
  -- seconds from the epoch to 2038, in order. The next visit is on the same route, direction and
  -- trip, at another stop, later, and its arrival is read within an hour of the last.
  pub travel_times-visits :
      (S₁ S₂ : StateStore) (live₁ : ℤ → String → S₁.State → Option ProtoMessage)
      (live₂ : ℤ → String → S₂.State → Option ProtoMessage) (L₁ : TypedLaws S₁ live₁ new_message)
      (L₂ : TypedLaws S₂ live₂ new_stop_event) (unmarshal : List ℕ → Option VehiclePositionEvent)
      (named : Named v) (end : ℤ) (p : EventAttributes) (V : Visit) (Vs : List Visit)
      (s₁ : S₁.State) (s₂ : S₂.State)
      → Showing S₁ live₁ L₁ unmarshal v named end p s₁
      → AreVisits T v end p (V ∷ Vs)
      → AreLegs V Vs
      → live₂ V.read_arrival.0 (key_of (arrival_of V)) s₂ ≡ none
      → let sent = (StopEvents.do_stream S₁ unmarshal (elements (positions (V ∷ Vs))) s₁).1 in
        summaries (TravelTime.do_stream T S₂ (deliver (instants (V ∷ Vs)) sent) s₂).1
        ≡ legs_from v V Vs
  travel_times-visits S₁ S₂ live₁ live₂ L₁ L₂ unmarshal named end p V Vs s₁ s₂ showing ks legs
        nothing =
      rw (do_stream-stop_events S₁ live₁ L₁ unmarshal v named T end p (V ∷ Vs) s₁ showing ks)
        (travels-first S₂ live₂ L₂ (key_of (arrival_of V)) end p V Vs s₂ ks legs refl nothing)
