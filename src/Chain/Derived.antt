-- ===== src/Chain/Derived.antt =====
-- From the stop events of an agency to the derived events.
use tpm_go.Prelude.{
  ◌≡◌, ◌≢◌, refl, sym, ap, ◌∙◌, Option-cases, inl, inr, Bool, true, false, String, Option, none,
  some, All, arith,
}
use tpm_go.Prelude.Int.{ℤ, pos, ◌<ℤ◌, ◌≤ℤ◌}
use tpm_go.Prelude.Text.{eq_iff}
use tpm_go.Events.Timestamp.{TimeOps}
use tpm_go.Events.Attributes
use tpm_go.Events.Stop.{EventType, arrival, departure, StopEvent}
use tpm_go.Events.Message.{ProtoMessage}
use tpm_go.Events.Dwell.{DwellTimeEvent}
use tpm_go.Events.Headway.{HeadwayTimeEvent}
use tpm_go.Events.TravelTime.{TravelTimeEvent}
use tpm_go.StateStore.Interface.{StateStore, TypedLaws}
use tpm_go.Processors.Element.{as_stop_event, new_stop_event}
use tpm_go.Processors.Dwell
use tpm_go.Processors.Dwell.{dwell_event, depart}
use tpm_go.Processors.Headway
use tpm_go.Processors.Headway.{headway_event, follow_up, vehicle_of}
use tpm_go.Processors.TravelTime
use tpm_go.Processors.TravelTime.{travel_time_event, arrive, stop_of}
use tpm_go.Processors.StopEvents.Machine.{Named}
use tpm_go.Chain.Facts.{IsPlaced, IsStop, IsSentStop, IsStoredStop, Holds}
use tpm_go.Chain.Stored.{IsKept-IsStoredStop, dwell-IsKept, headway-IsKept, travel-IsKept}

-- A dwell time of a named vehicle of the agency at a named stop, not negative.
abbrev pub IsAgencyDwell : String → DwellTimeEvent → Type 0
IsAgencyDwell agency d = IsPlaced agency d.attributes × pos 0 ≤ℤ d.dwell_time_seconds

-- A positive headway at a named stop of the agency, between two named vehicles, not the same.
abbrev pub IsAgencyHeadway : String → HeadwayTimeEvent → Type 0
IsAgencyHeadway agency h =
    IsPlaced agency h.attributes
    × Named h.leading_vehicle_id
    × Named h.following_vehicle_id
    × (h.leading_vehicle_id ≢ h.following_vehicle_id)
    × pos 0 <ℤ h.headway_seconds

-- A positive travel time of a named vehicle of the agency between two named stops, not the same.
abbrev pub IsAgencyTravel : String → TravelTimeEvent → Type 0
IsAgencyTravel agency r =
    (Attributes.get_agency_id r.attributes ≡ agency)
    × Named (Attributes.get_vehicle_id r.attributes)
    × Named (Attributes.get_origin_stop_id r.attributes)
    × Named (Attributes.get_destination_stop_id r.attributes)
    × (Attributes.get_origin_stop_id r.attributes ≢ Attributes.get_destination_stop_id r.attributes)
    × pos 0 <ℤ r.travel_time_seconds

module _ (T : TimeOps) (S : StateStore) (agency : String) where
  process-IsAgencyDwell :
      (t u : ℤ) (e : StopEvent) (s : S.State)
      → IsStop T agency e
      → All (IsAgencyDwell agency) (Dwell.process T S t u (some e) s).1
  unfolding Dwell.process dwell_event
  process-IsAgencyDwell t u e s h = ground (arith, h.0)

  follow_up-IsAgencyHeadway :
      (u : ℤ) (last : Option StopEvent) (found : Bool) (e : StopEvent) (s : S.State)
      → (found ≡ true → (a : StopEvent) → last ≡ some a → IsStop T agency a)
      → IsStop T agency e
      → All (IsAgencyHeadway agency) (follow_up T S u last found e s).1
  unfolding follow_up headway_event
  follow_up-IsAgencyHeadway u none found e s l h = tt
  follow_up-IsAgencyHeadway u (some last) false e s l h = tt
  follow_up-IsAgencyHeadway u (some last) true e s l h =
      ground (arith, eq_iff (vehicle_of last) (vehicle_of e), (l refl last refl).0, h.0)

  arrive-IsAgencyTravel :
      (u : ℤ) (last : Option StopEvent) (found : Bool) (e : StopEvent) (s : S.State)
      → (found ≡ true → (a : StopEvent) → last ≡ some a → IsStop T agency a)
      → IsStop T agency e
      → All (IsAgencyTravel agency) (arrive T S u last found e s).1
  unfolding arrive travel_time_event
  arrive-IsAgencyTravel u last false e s l h = tt
  arrive-IsAgencyTravel u none true e s l h = tt
  arrive-IsAgencyTravel u (some last) true e s l h =
      ground (arith, eq_iff (stop_of last) (stop_of e), (l refl last refl).0, h.0)

  module _ (live : ℤ → String → S.State → Option ProtoMessage)
      (L : TypedLaws S live new_stop_event) where
    -- What `Get` finds in such a store.
    found-IsStop :
        (t : ℤ) (k : String) (s : S.State)
        → Holds live (IsStoredStop T agency) s
        → (S.get t k new_stop_event s).1 ≡ true
        → (a : StopEvent) → as_stop_event (S.get t k new_stop_event s).0 ≡ some a
        → IsStop T agency a
    found-IsStop t k s i found a is_a = elim (Option-cases (live t k s)) [
      | inl nothing ↦ ground (arith, L.get-live t k s)
      | inr (m, here) ↦
          let got : (S.get t k new_stop_event s).0 ≡ m = ground (arith, L.get-live t k s) in
          i t k m here a (sym (ap as_stop_event got) ∙ is_a)
    ]

    headway-IsAgencyHeadway :
        (x : EventType) (t u : ℤ) (e : StopEvent) (s : S.State)
        → IsStop T agency e
        → Holds live (IsStoredStop T agency) s
        → All (IsAgencyHeadway agency) (Headway.process_type T S x t u e s).1
    unfolding Headway.process_type
    headway-IsAgencyHeadway departure t u e s h i =
        let (m, found) = S.get t (Headway.key_of e) new_stop_event s in
        follow_up-IsAgencyHeadway u (as_stop_event m) found e s
          (found-IsStop t (Headway.key_of e) s i) h
    headway-IsAgencyHeadway _ t u e s h i = tt

    travel-IsAgencyTravel :
        (x : EventType) (t u : ℤ) (e : StopEvent) (s : S.State)
        → IsStop T agency e
        → Holds live (IsStoredStop T agency) s
        → All (IsAgencyTravel agency) (TravelTime.process_type T S x t u e s).1
    unfolding TravelTime.process_type
    travel-IsAgencyTravel arrival t u e s h i =
        let (m, found) = S.get t (TravelTime.key_of e) new_stop_event s in
        arrive-IsAgencyTravel u (as_stop_event m) found e s
          (found-IsStop t (TravelTime.key_of e) s i) h
    travel-IsAgencyTravel _ t u e s h i = tt

    -- The turns of the three processors: their stores still hold stop events of the agency only.
    pub dwell-keeps :
        (t u : ℤ) (o : Option StopEvent) (s : S.State)
        → IsSentStop T agency o
        → Holds live (IsStoredStop T agency) s
        → Holds live (IsStoredStop T agency) (Dwell.process T S t u o s).0
          × All (IsAgencyDwell agency) (Dwell.process T S t u o s).1
    dwell-keeps t u none s h i = absurd h
    dwell-keeps t u (some e) s h i = (
      λ w k m found.
          IsKept-IsStoredStop T S live L t u e s w k m agency
            (dwell-IsKept T S live L t u e s w k m found) h i,
      process-IsAgencyDwell t u e s h,
    )

    pub headway-keeps :
        (t u : ℤ) (o : Option StopEvent) (s : S.State)
        → IsSentStop T agency o
        → Holds live (IsStoredStop T agency) s
        → Holds live (IsStoredStop T agency) (Headway.process T S t u o s).0
          × All (IsAgencyHeadway agency) (Headway.process T S t u o s).1
    headway-keeps t u none s h i = absurd h
    headway-keeps t u (some e) s h i = (
      λ w k m found.
          IsKept-IsStoredStop T S live L t u e s w k m agency
            (headway-IsKept T S live L t u e s w k m found) h i,
      unfold Headway.process in headway-IsAgencyHeadway e.stop_event_type t u e s h i,
    )

    pub travel-keeps :
        (t u : ℤ) (o : Option StopEvent) (s : S.State)
        → IsSentStop T agency o
        → Holds live (IsStoredStop T agency) s
        → Holds live (IsStoredStop T agency) (TravelTime.process T S t u o s).0
          × All (IsAgencyTravel agency) (TravelTime.process T S t u o s).1
    travel-keeps t u none s h i = absurd h
    travel-keeps t u (some e) s h i = (
      λ w k m found.
          IsKept-IsStoredStop T S live L t u e s w k m agency
            (travel-IsKept T S live L t u e s w k m found) h i,
      unfold TravelTime.process in travel-IsAgencyTravel e.stop_event_type t u e s h i,
    )
