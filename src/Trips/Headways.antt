-- ===== src/Trips/Headways.antt =====
-- The headways between vehicles that visit a stop one after the other.
use tpm_go.Prelude.{
  ◌≡◌, ◌<◌, refl, ap, true, false, String, Option, none, some, List, [], ◌∷◌, arith, ℕ,
}
use tpm_go.Prelude.Int.{ℤ, pos, ◌+ℤ◌, ◌-ℤ◌, ◌≤ℤ◌, le→ltb_ℤ}
use tpm_go.Prelude.Text.{◌==◌, eq_refl}
use tpm_go.Events.Timestamp.{TimeOps, TimeLaws, hour}
use tpm_go.Events.Attributes
use tpm_go.Events.VehiclePosition.{VehiclePositionEvent}
use tpm_go.Events.Headway.{HeadwayTimeEvent}
use tpm_go.Events.Stop.{StopEvent}
use tpm_go.Events.Message.{ProtoMessage, stop}
use tpm_go.StateStore.Interface.{StateStore, TypedLaws}
use tpm_go.Processors.Element.{new_stop_event, run_stream}
use tpm_go.Processors.Elapsed.{IsAt, seconds-IsAt}
use tpm_go.Processors.StopEvents
use tpm_go.Processors.StopEvents.{new_message}
use tpm_go.Processors.StopEvents.Journey.{elements}
use tpm_go.Processors.Headway
use tpm_go.Processors.Headway.{key_of, headway_seconds, headway_event, process}
use tpm_go.Processors.Headway.Service.{Shows, counts, counted}
use tpm_go.Trips.{
  Visit, IsVisit, positions, arrival_of, departure_of, stop_events, deliver, instants,
}
use tpm_go.Trips.Fleet.{Bus, visits_of, IsFleet, AllShow, do_stream-fleet}

-- Of a headway: the vehicles, the stop and the seconds.
abbrev pub Summary : Type 0
Summary = String × String × String × ℤ

abbrev pub summary : HeadwayTimeEvent → Summary
summary e = (
  e.leading_vehicle_id,
  e.following_vehicle_id,
  Attributes.get_stop_id e.attributes,
  e.headway_seconds,
)

abbrev pub summaries : List HeadwayTimeEvent → List Summary
summaries [] = []
summaries (e ∷ es) = summary e ∷ summaries es

abbrev pub gaps_after : Bus → List Bus → List Summary
gaps_after B [] = []
gaps_after B (C ∷ Cs) =
    (B.vehicle, C.vehicle, C.visit.arrive.attrs.stop_id, pos C.visit.n -ℤ pos B.visit.n)
    ∷ gaps_after C Cs

-- The next vehicle at the stop: on the route, in the direction, and gone later, and the departures
-- read within an hour of each other.
pub record IsNext (B C : Bus) : Type 0 where
  pub route : C.visit.leave.attrs.route_id ≡ B.visit.leave.attrs.route_id
  pub direction : C.visit.leave.attrs.direction_id ≡ B.visit.leave.attrs.direction_id
  pub at : C.visit.arrive.attrs.stop_id ≡ B.visit.arrive.attrs.stop_id
  pub later : B.visit.n < C.visit.n
  pub soon : C.visit.read_departure.0 ≤ℤ B.visit.read_departure.1 +ℤ hour

abbrev pub AreInLine : Bus → List Bus → Type 0
AreInLine B [] = Unit
AreInLine B (C ∷ Cs) = IsNext B C × AreInLine C Cs

abbrev IsBus : TimeOps → Bus → Type 0
IsBus T B = IsVisit T B.vehicle B.end B.last B.visit

module _ (T : TimeOps) (K : TimeLaws T) where
  seconds-gap :
      (B C : Bus)
      → IsBus T B
      → IsBus T C
      → summary (headway_event T (departure_of B.visit) (departure_of C.visit))
        ≡ (B.vehicle, C.vehicle, C.visit.arrive.attrs.stop_id, pos C.visit.n -ℤ pos B.visit.n)
  unfolding headway_event headway_seconds
  seconds-gap B C k j =
      let seconds =
        seconds-IsAt T K (departure_of B.visit) (departure_of C.visit) B.visit.n C.visit.n
          (k.leave.instant, k.leave.era) (j.leave.instant, j.leave.era) in
      rw (seconds, k.leave.vehicle, j.leave.vehicle) refl

  module _ (S : StateStore) (live : ℤ → String → S.State → Option ProtoMessage)
      (L : TypedLaws S live new_stop_event) (key : String) where
    -- The store shows the departure of the last vehicle.
    abbrev IsAfter : Visit → S.State → Type 0
    IsAfter V s =
        (key_of (departure_of V) ≡ key)
        × Shows T K S live L key (V.read_departure.1 +ℤ hour) (departure_of V) s

    arrival-ignored :
        (t u : ℤ) (V : Visit) (s : S.State) → process T S t u (some (arrival_of V)) s ≡ (s, [])
    unfolding process
    arrival-ignored t u V s = refl

    first-IsAfter :
        (V : Visit) (s : S.State)
        → key_of (departure_of V) ≡ key
        → live V.read_departure.0 key s ≡ none
        → let (s', sent) =
            process T S V.read_departure.0 V.read_departure.1 (some (departure_of V)) s in
          IsAfter V s' × (sent ≡ [])
    unfolding process
    first-IsAfter V s here nothing =
        let t : ℤ = V.read_departure.0 in
        let u : ℤ = V.read_departure.1 in
        let d : StopEvent = departure_of V in
        let absent = L.get-live t (key_of d) s in
        let lost = ap (λ j. live t j s) here in
        (
          (
            here,
            λ w le. ground (
              arith,
              absent,
              lost,
              nothing,
              L.live-set u w (key_of d) key (some (stop (some d))) hour s refl refl,
              eq_refl key,
              le→ltb_ℤ (u +ℤ hour) w le,
            ),
          ),
          ground (arith, absent, lost, nothing),
        )

    next-IsAfter :
        (B C : Bus) (s : S.State)
        → IsBus T B
        → IsBus T C
        → (B.vehicle == C.vehicle) ≡ false
        → IsNext B C
        → IsAfter B.visit s
        → let W : Visit = C.visit in
          let (s', sent) =
            process T S W.read_departure.0 W.read_departure.1 (some (departure_of W)) s in
          IsAfter W s' × (sent ≡ headway_event T (departure_of B.visit) (departure_of W) ∷ [])
    unfolding key_of
    next-IsAfter B C s k j apart follows (here, shows) =
        let V : Visit = B.visit in
        let W : Visit = C.visit in
        let a : StopEvent = departure_of V in
        let b : StopEvent = departure_of W in
        let there : key_of b ≡ key = rw (follows.route, follows.direction, follows.at) here in
        let v_at : IsAt T V.n a = (k.leave.instant, k.leave.era) in
        let w_at : IsAt T W.n b = (j.leave.instant, j.leave.era) in
        let counting : counts a V.n b W.n ≡ true =
          rw (k.leave.vehicle, j.leave.vehicle, apart) (ground (arith, follows.later)) in
        let (sent, after) =
          counted T K S live L key (V.read_departure.1 +ℤ hour) W.read_departure.0
            W.read_departure.1 a b V.n W.n s refl there follows.soon v_at w_at shows counting in
        ((there, after), sent)

    gaps :
        (B : Bus) (Cs : List Bus) (s : S.State)
        → IsFleet T (B ∷ Cs)
        → AreInLine B Cs
        → IsAfter B.visit s
        → summaries
            (Headway.do_stream T S
              (deliver (instants (visits_of Cs)) (stop_events (visits_of Cs)))
              s).1
          ≡ gaps_after B Cs
    unfolding Headway.do_stream run_stream
    gaps B [] s k line after = refl
    gaps B (C ∷ Cs) s (bus, (apart, _), fleet) (follows, line) after =
        let W : Visit = C.visit in
        let (after', sent) = next-IsAfter B C s bus fleet.0 apart follows after in
        let s₁ : S.State =
          (process T S W.read_departure.0 W.read_departure.1 (some (departure_of W)) s).0 in
        rw
          (arrival-ignored W.read_arrival.0 W.read_arrival.1 W s, sent, seconds-gap B C bus fleet.0)
          (ap (λ l. (B.vehicle, C.vehicle, W.arrive.attrs.stop_id, pos W.n -ℤ pos B.visit.n) ∷ l)
            (gaps C Cs s₁ fleet line after'))

    gaps-first :
        (B : Bus) (Cs : List Bus) (s : S.State)
        → IsFleet T (B ∷ Cs)
        → AreInLine B Cs
        → key_of (departure_of B.visit) ≡ key
        → live B.visit.read_departure.0 key s ≡ none
        → summaries
            (Headway.do_stream T S
              (deliver (instants (visits_of (B ∷ Cs))) (stop_events (visits_of (B ∷ Cs))))
              s).1
          ≡ gaps_after B Cs
    unfolding Headway.do_stream run_stream
    gaps-first B Cs s fleet line here nothing =
        let V : Visit = B.visit in
        let (after, sent) = first-IsAfter V s here nothing in
        let s₁ : S.State =
          (process T S V.read_departure.0 V.read_departure.1 (some (departure_of V)) s).0 in
        rw (arrival-ignored V.read_arrival.0 V.read_arrival.1 V s, sent)
          (gaps B Cs s₁ fleet line after)

  -- Where the store of the stop event processor shows every vehicle of a fleet on its way to one
  -- stop, the positions are those of their visits, one after the other, and nothing is live under
  -- the key of the stop, route and direction when the first departure is read: the headway
  -- processor, fed with the stop events that are sent for the positions, sends one headway between
  -- each two vehicles that follow each other, in their order, with the two vehicles, the stop and
  -- the seconds between their first positions in transit to the next stop. A visit to a stop is:
  -- any positions on the way to it, a first position at it, any more at it, and a first one in
  -- transit to the next, each read within an hour of the last, and the departure within an hour of
  -- the arrival. The first at the stop and the first after it have the same agency, route and
  -- direction and timestamps that are whole seconds from the epoch to 2038, in order. The vehicles
  -- are named and different; each is gone later than the one before, on the same route and in the
  -- same direction, and its departure is read within an hour of the last.
  pub headways-fleet :
      (S₁ S₂ : StateStore) (live₁ : ℤ → String → S₁.State → Option ProtoMessage)
      (live₂ : ℤ → String → S₂.State → Option ProtoMessage) (L₁ : TypedLaws S₁ live₁ new_message)
      (L₂ : TypedLaws S₂ live₂ new_stop_event) (unmarshal : List ℕ → Option VehiclePositionEvent)
      (B : Bus) (Cs : List Bus) (s₁ : S₁.State) (s₂ : S₂.State)
      → AllShow S₁ live₁ L₁ unmarshal (B ∷ Cs) s₁
      → IsFleet T (B ∷ Cs)
      → AreInLine B Cs
      → live₂ B.visit.read_departure.0 (key_of (departure_of B.visit)) s₂ ≡ none
      → let Vs : List Visit = visits_of (B ∷ Cs) in
        let sent = (StopEvents.do_stream S₁ unmarshal (elements (positions Vs)) s₁).1 in
        summaries (Headway.do_stream T S₂ (deliver (instants Vs) sent) s₂).1 ≡ gaps_after B Cs
  headways-fleet S₁ S₂ live₁ live₂ L₁ L₂ unmarshal B Cs s₁ s₂ shows fleet line nothing =
      rw (do_stream-fleet S₁ live₁ L₁ unmarshal T (B ∷ Cs) s₁ shows fleet)
        (gaps-first S₂ live₂ L₂ (key_of (departure_of B.visit)) B Cs s₂ fleet line refl nothing)
