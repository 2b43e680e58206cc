-- ===== src/Trips/Fleet.antt =====
-- Vehicles that visit a stop one after the other: their positions, and the stop events.
use tpm_go.Prelude.{
  ◌≡◌, refl, ap, ◌∙◌, false, Bool, String, Option, some, List, [], ◌∷◌, ◌++◌, All, arith, ℕ,
}
use mathlib.Core.List.{append-nil}
use tpm_go.Prelude.Int.{ℤ, ◌+ℤ◌}
use tpm_go.Prelude.Text.{◌==◌}
use tpm_go.Events.Timestamp.{TimeOps, hour}
use tpm_go.Events.Attributes.{StopStatus, EventAttributes}
use tpm_go.Events.VehiclePosition.{VehiclePositionEvent}
use tpm_go.Events.Message.{ProtoMessage}
use tpm_go.StateStore.Interface.{StateStore, TypedLaws}
use tpm_go.Processors.StopEvents.{new_message, receive, process, do_stream}
use tpm_go.Processors.StopEvents.Machine.{Named}
use tpm_go.Processors.StopEvents.Turn.{live-process}
use tpm_go.Processors.StopEvents.Journey.{Positions, position, elements}
use tpm_go.Trips.{
  IsQuiet, Visit, IsVisit, positions_of, positions, arrival_of, departure_of, stop_events,
}
use tpm_go.Trips.Quiet.{do_stream-append}
use tpm_go.Trips.Stops.{Showing, do_stream-stop_events}

-- A vehicle on its way to a stop, by its last position, which is kept until `end`, and its visit.
pub record Bus : Type 0 where
  pub vehicle : String
  pub named : Named vehicle
  pub end : ℤ
  pub last : EventAttributes
  pub visit : Visit

abbrev pub visits_of : List Bus → List Visit
visits_of [] = []
visits_of (B ∷ Bs) = B.visit ∷ visits_of Bs

-- Each visits the stop that it is on its way to, and they are different vehicles.
abbrev pub IsFleet : TimeOps → List Bus → Type 0
IsFleet T [] = Unit
IsFleet T (B ∷ Bs) =
    IsVisit T B.vehicle B.end B.last B.visit
    × All (λ (C : Bus). (B.vehicle == C.vehicle) ≡ false) Bs
    × IsFleet T Bs

abbrev AreOf : String → Positions → Type 0
AreOf v [] = Unit
AreOf v ((t, u, attrs, lat, long) ∷ ps) = (attrs.vehicle_id ≡ v) × AreOf v ps

AreOf-append : (v : String) (ps qs : Positions) → AreOf v ps → AreOf v qs → AreOf v (ps ++ qs)
AreOf-append v [] qs hp hq = hq
AreOf-append v (p ∷ ps) qs hp hq = (hp.0, AreOf-append v ps qs hp.1 hq)

AreOf-quiet :
    (kind : StopStatus → Bool) (v stop : String) (end : ℤ) (ps : Positions)
    → IsQuiet kind v stop end ps
    → AreOf v ps
AreOf-quiet kind v stop end [] q = tt
AreOf-quiet kind v stop end ((t, u, attrs, lat, long) ∷ ps) (here, _, _, _, q) =
    (here, AreOf-quiet kind v stop (u +ℤ hour) ps q)

AreOf-visit :
    (T : TimeOps) (v : String) (end : ℤ) (p : EventAttributes) (V : Visit)
    → IsVisit T v end p V
    → AreOf v (positions_of V)
AreOf-visit T v end p V k =
    AreOf-append v V.approach _ (AreOf-quiet _ v _ _ V.approach k.approach) (
      k.arrive.vehicle,
      AreOf-append v V.stays _ (AreOf-quiet _ v _ _ V.stays k.stays) (k.leave.vehicle, tt),
    )

module _ (S : StateStore) (live : ℤ → String → S.State → Option ProtoMessage)
    (L : TypedLaws S live new_message) (unmarshal : List ℕ → Option VehiclePositionEvent) where
  -- The positions of one vehicle leave the state of every other alone.
  live-elsewhere :
      (v other : String) (ps : Positions) (s : S.State) (w : ℤ)
      → Named v
      → (v == other) ≡ false
      → AreOf v ps
      → live w other (do_stream S unmarshal (elements ps) s).0 ≡ live w other s
  unfolding do_stream receive
  live-elsewhere v other [] s w named apart h = refl
  live-elsewhere v other ((t, u, attrs, lat, long) ∷ ps) s w named apart (here, h) =
      let e : VehiclePositionEvent = position attrs lat long in
      let s' : S.State = (process S t u (some e) s).0 in
      live-elsewhere v other ps s' w named apart h
      ∙ (live-process S live L t u attrs e s refl (rw here named) w other
          ∙ ground (arith, here, apart))

  abbrev pub AllShow : List Bus → S.State → Type 0
  AllShow Bs s = All (λ (B : Bus). Showing S live L unmarshal B.vehicle B.named B.end B.last s) Bs

  AllShow-elsewhere :
      (v : String) (Bs : List Bus) (ps : Positions) (s : S.State)
      → Named v
      → AreOf v ps
      → All (λ (C : Bus). (v == C.vehicle) ≡ false) Bs
      → AllShow Bs s
      → AllShow Bs (do_stream S unmarshal (elements ps) s).0
  AllShow-elsewhere v [] ps s named h apart shows = tt
  AllShow-elsewhere v (B ∷ Bs) ps s named h (other, apart) ((lat, long, show), shows) = (
    (lat, long, λ w le. live-elsewhere v B.vehicle ps s w named other h ∙ show w le),
    AllShow-elsewhere v Bs ps s named h apart shows,
  )

  pub do_stream-fleet :
      (T : TimeOps) (Bs : List Bus) (s : S.State)
      → AllShow Bs s
      → IsFleet T Bs
      → (do_stream S unmarshal (elements (positions (visits_of Bs))) s).1
        ≡ stop_events (visits_of Bs)
  unfolding do_stream
  do_stream-fleet T [] s shows k = refl
  do_stream-fleet T (B ∷ Bs) s (show, shows) (visit, apart, k) =
      let V : Visit = B.visit in
      let s' : S.State = (do_stream S unmarshal (elements (positions_of V)) s).0 in
      let one =
        do_stream-stop_events S live L unmarshal B.vehicle B.named T B.end B.last (V ∷ []) s show
          (visit, tt) in
      let sent : (do_stream S unmarshal (elements (positions_of V)) s).1
          ≡ some (arrival_of V) ∷ some (departure_of V) ∷ [] =
        rw (append-nil (positions_of V)) at one in
      let shows' =
        AllShow-elsewhere B.vehicle Bs (positions_of V) s B.named
          (AreOf-visit T B.vehicle B.end B.last V visit) apart shows in
      rw (do_stream-append S unmarshal (positions_of V) (positions (visits_of Bs)) s, sent)
        (ap (λ l. some (arrival_of V) ∷ some (departure_of V) ∷ l)
          (do_stream-fleet T Bs s' shows' k))
