-- ===== src/Processors/StopEvents/Vehicles.antt =====
-- `doStream` of processors/transit/stop_events/stop_event.go with the elements of several vehicles.
use tpm_go.Prelude.{
  ℕ, ◌≡◌, refl, Bool, true, false, String, Option, none, some, List, [], ◌∷◌, ◌++◌, arith, ap, ◌∙◌,
  Bool-cases, Option-cases, inl, inr, if◌then◌else◌,
}
use tpm_go.Prelude.Int.{ℤ}
use tpm_go.Prelude.Text.{◌==◌, eq_iff}
use tpm_go.Events.Attributes
use tpm_go.Events.Attributes.{EventAttributes}
use tpm_go.Events.VehiclePosition
use tpm_go.Events.VehiclePosition.{VehiclePositionEvent}
use tpm_go.Events.Stop.{StopEvent}
use tpm_go.Events.Message.{ProtoMessage}
use tpm_go.StateStore.Interface.{StateStore, TypedLaws}
use tpm_go.Processors.Element.{Element}
use tpm_go.Processors.StopEvents.{new_message, receive, process, do_stream}
use tpm_go.Processors.StopEvents.Machine.{Named}
use tpm_go.Processors.StopEvents.Turn.{sent-process, live-process}

abbrev pub Elements : Type 0
Elements = List (ℤ × ℤ × Element VehiclePositionEvent)

abbrev pub vehicle_of : Option VehiclePositionEvent → String
vehicle_of vp = Attributes.get_vehicle_id (VehiclePosition.get_attributes vp)

-- The turn processes an event of the vehicle `v`.
abbrev pub is_about : String → Option (Option VehiclePositionEvent) → Bool
is_about v none = false
is_about v (some vp) = vehicle_of vp == v

module _ (unmarshal : List ℕ → Option VehiclePositionEvent) (v : String) where
  pub only_about : Elements → Elements
  only_about [] = []
  only_about ((t, u, e) ∷ es) =
      let rest = only_about es in
      if is_about v (receive unmarshal e) then (t, u, e) ∷ rest else rest

module _ (S : StateStore) (live : ℤ → String → S.State → Option ProtoMessage)
    (L : TypedLaws S live new_message) (unmarshal : List ℕ → Option VehiclePositionEvent)
    (v : String) (named : Named v) where
  -- A turn of the loop: the store after it, and what it sent.
  abbrev pub turn :
      ℤ → ℤ → Option (Option VehiclePositionEvent) → S.State → S.State × List (Option StopEvent)
  turn t u none s = (s, [])
  turn t u (some vp) s = process S t u vp s

  -- What the turns about `v` send, in a run over all the elements.
  pub sent_about : Elements → S.State → List (Option StopEvent)
  sent_about [] s = []
  sent_about ((t, u, e) ∷ es) s =
      let (s', sent) = turn t u (receive unmarshal e) s in
      let later = sent_about es s' in
      if is_about v (receive unmarshal e) then sent ++ later else later

  abbrev SameAt : S.State → S.State → Type 0
  SameAt s s' = (w : ℤ) → live w v s ≡ live w v s'

  turn_elsewhere :
      (t u : ℤ) (o : Option (Option VehiclePositionEvent)) (s : S.State) (w : ℤ)
      → is_about v o ≡ false
      → live w v (turn t u o s).0 ≡ live w v s
  unfolding process
  turn_elsewhere t u none s w h = refl
  turn_elsewhere t u (some none) s w h = refl
  turn_elsewhere t u (some (some e)) s w h = elim (Option-cases e.attributes) [
    | inl nil ↦ ground arith
    | inr (attrs, here) ↦ elim (Bool-cases (attrs.vehicle_id == "")) [
      | inl empty ↦ ground arith
      | inr full ↦ rw (live-process S live L t u attrs e s here full w v) (ground arith)
    ]
  ]

  turn_here :
      (t u : ℤ) (o : Option (Option VehiclePositionEvent)) (s s' : S.State)
      → is_about v o ≡ true
      → SameAt s s'
      → ((turn t u o s).1 ≡ (turn t u o s').1) × SameAt (turn t u o s).0 (turn t u o s').0
  turn_here t u none s s' h same = cc
  turn_here t u (some none) s s' h same = ground (arith, eq_iff "" v, eq_iff v "")
  turn_here t u (some (some e)) s s' h same = elim (Option-cases e.attributes) [
    | inl nil ↦ ground (arith, eq_iff "" v, eq_iff v "")
    | inr (attrs, here) ↦
        let is_v : attrs.vehicle_id ≡ v = ground (arith, eq_iff attrs.vehicle_id v) in
        let full : Named attrs.vehicle_id = rw is_v named in
        (
          ground (
            arith,
            sent-process S live L t u attrs e s here full,
            sent-process S live L t u attrs e s' here full,
            ap (λ k. live t k s) is_v,
            ap (λ k. live t k s') is_v,
            same t,
          ),
          λ w. ground (
            arith,
            live-process S live L t u attrs e s here full w v,
            live-process S live L t u attrs e s' here full w v,
            ap (λ k. live t k s) is_v,
            ap (λ k. live t k s') is_v,
            same t,
            same w,
          ),
        )
  ]

  do_stream-cons :
      (t u : ℤ) (e : Element VehiclePositionEvent) (es : Elements) (s : S.State)
      → (do_stream S unmarshal ((t, u, e) ∷ es) s).1
        ≡ (turn t u (receive unmarshal e) s).1
          ++ (do_stream S unmarshal es (turn t u (receive unmarshal e) s).0).1
  unfolding do_stream
  do_stream-cons t u e es s = elim (Option-cases (receive unmarshal e)) [
    | inl skipped ↦ ground arith
    | inr (vp, received) ↦ ground arith
  ]

  sent_about-SameAt :
      (es : Elements) (s s' : S.State)
      → SameAt s s'
      → sent_about es s ≡ (do_stream S unmarshal (only_about unmarshal v es) s').1
  unfolding sent_about only_about
  sent_about-SameAt [] s s' same = unfold do_stream in refl
  sent_about-SameAt ((t, u, e) ∷ es) s s' same =
      elim (Bool-cases (is_about v (receive unmarshal e))) [
        | inl about ↦
            let (sent, after) = turn_here t u (receive unmarshal e) s s' about same in
            rw (about, do_stream-cons, sent)
              (ap (λ r. (turn t u (receive unmarshal e) s').1 ++ r)
                (sent_about-SameAt es (turn t u (receive unmarshal e) s).0
                  (turn t u (receive unmarshal e) s').0 after))
        | inr elsewhere ↦ rw elsewhere (
            sent_about-SameAt es (turn t u (receive unmarshal e) s).0 s'
              (λ w. turn_elsewhere t u (receive unmarshal e) s w elsewhere ∙ same w))
      ]

  -- For any elements of any vehicles, what the turns about a named vehicle send in the whole run
  -- is all that is sent where the channel holds that vehicle's elements only.
  sent_about-do_stream :
      (es : Elements) (s : S.State)
      → sent_about es s ≡ (do_stream S unmarshal (only_about unmarshal v es) s).1
  sent_about-do_stream es s = sent_about-SameAt es s s (λ w. refl)
