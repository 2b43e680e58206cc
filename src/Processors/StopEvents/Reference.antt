-- ===== src/Processors/StopEvents/Reference.antt =====
-- What the stop event processor computes for one vehicle, without a store: a machine that remembers
-- the last position, and until when it counts.
use tpm_go.Prelude.{
  ℕ, ◌≡◌, refl, true, Bool-cases, Option-cases, inl, inr, String, Option, none, some, List, [], ◌∷◌,
  ◌++◌, arith, ap, ◌∙◌, if◌then◌else◌,
}
use tpm_go.Prelude.Int.{ℤ, ◌+ℤ◌, ltb_ℤ}
use tpm_go.Prelude.Text.{◌==◌, eq_iff, eq_refl}
use tpm_go.Events.Timestamp.{hour}
use tpm_go.Events.Attributes.{EventAttributes}
use tpm_go.Events.VehiclePosition.{VehiclePositionEvent}
use tpm_go.Events.Stop.{StopEvent}
use tpm_go.Events.Message.{ProtoMessage, vehicle_position}
use tpm_go.StateStore.Interface.{StateStore, TypedLaws, until}
use tpm_go.Processors.Element.{bytes, message, other, run_stream}
use tpm_go.Processors.Keyed.Shards.{share}
use tpm_go.Processors.StopEvents.{
  new_message, transitions, compare_with, previous_attributes, process, do_stream,
}
use tpm_go.Processors.StopEvents.Machine.{Named}
use tpm_go.Processors.StopEvents.Turn.{reaction, is_stored, sent-process, live-process}
use tpm_go.Processors.StopEvents.Shared.{
  Elements, vehicle, decoded, decoded-share, do_stream-decoded,
}
use tpm_go.Processors.StopEvents.About.{about, about-do_stream}

-- The positions of a vehicle, with the two instants of each turn.
abbrev pub Positions : Type 0
Positions = List (ℤ × ℤ × VehiclePositionEvent)

-- The last position of the vehicle, and until when it is remembered.
abbrev pub Memory : Type 0
Memory = Option (VehiclePositionEvent × ℤ)

abbrev pub remembered : ℤ → Memory → Option VehiclePositionEvent
remembered t none = none
remembered t (some (p, end)) = if ltb_ℤ end t then none else some p

abbrev pub changes :
    Option EventAttributes → Option EventAttributes → VehiclePositionEvent → List (Option StopEvent)
changes (some previous) (some attrs) vp = transitions previous attrs vp
changes _ _ vp = []

abbrev pub changes_from :
    Option VehiclePositionEvent → VehiclePositionEvent → List (Option StopEvent)
changes_from none vp = []
changes_from (some p) vp = changes p.attributes vp.attributes vp

-- The stop events for the positions, each compared with the one before it, if that is not more than
-- an hour old.
unfoldable pub reference : Memory → Positions → List (Option StopEvent)
reference c [] = []
reference c ((t, u, vp) ∷ ps) =
    changes_from (remembered t c) vp ++ reference (some (vp, u +ℤ hour)) ps

-- The positions of the vehicle among the elements.
unfoldable pub positions_of : String → Elements → Positions
positions_of v [] = []
positions_of v ((t, u, message (some e)) ∷ es) =
    let rest = positions_of v es in if vehicle e == v then (t, u, e) ∷ rest else rest
positions_of v ((t, u, message none) ∷ es) = positions_of v es
positions_of v ((t, u, bytes b) ∷ es) = positions_of v es
positions_of v ((t, u, other) ∷ es) = positions_of v es

-- What the store shows for the vehicle with this memory.
abbrev pub shown : ℤ → Memory → Option ProtoMessage
shown w none = none
shown w (some (p, end)) = until end w (some (vehicle_position (some p)))

module _ (S : StateStore) (live : ℤ → String → S.State → Option ProtoMessage)
    (L : TypedLaws S live new_message) (v : String) (named : Named v) where
  abbrev pub Remembers : Memory → S.State → Type 0
  Remembers c s = (w : ℤ) → live w v s ≡ shown w c

  reaction-shown :
      (c : Memory) (t : ℤ) (attrs : EventAttributes) (vp : VehiclePositionEvent)
      → vp.attributes ≡ some attrs
      → reaction (shown t c) attrs vp ≡ changes_from (remembered t c) vp
  unfolding compare_with previous_attributes
  reaction-shown none t attrs vp here = refl
  reaction-shown (some (p, end)) t attrs vp here = ground (arith, here)

  stored-shown : (c : Memory) (t : ℤ) → is_stored (shown t c) ≡ true
  stored-shown none t = refl
  stored-shown (some (p, end)) t = ground arith

  -- The vehicle is named, so its positions have attributes.
  attributes_of :
      (vp : VehiclePositionEvent)
      → vehicle vp ≡ v
      → (attrs : EventAttributes) × (vp.attributes ≡ some attrs) × (attrs.vehicle_id ≡ v)
  attributes_of vp is_v = elim (Option-cases vp.attributes) [
    | inl nil ↦ ground (arith, nil, eq_iff v "")
    | inr (attrs, here) ↦ (attrs, here, ground (arith, here))
  ]

  -- A turn of a position of the vehicle.
  process-sent :
      (t u : ℤ) (vp : VehiclePositionEvent) (s : S.State) (c : Memory)
      → vehicle vp ≡ v
      → Remembers c s
      → (process S t u (some vp) s).1 ≡ changes_from (remembered t c) vp
  process-sent t u vp s c is_v memory =
      let (attrs, here, is_id) = attributes_of vp is_v in
      let named_id : Named attrs.vehicle_id = rw is_id named in
      sent-process S live L t u attrs vp s here named_id
      ∙ ap (λ o. reaction o attrs vp) (ap (λ k. live t k s) is_id ∙ memory t)
      ∙ reaction-shown c t attrs vp here

  process-Remembers :
      (t u : ℤ) (vp : VehiclePositionEvent) (s : S.State) (c : Memory)
      → vehicle vp ≡ v
      → Remembers c s
      → Remembers (some (vp, u +ℤ hour)) (process S t u (some vp) s).0
  process-Remembers t u vp s c is_v memory w =
      let (attrs, here, is_id) = attributes_of vp is_v in
      let named_id : Named attrs.vehicle_id = rw is_id named in
      let stored : is_stored (live t attrs.vehicle_id s) ≡ true =
        ap is_stored (ap (λ k. live t k s) is_id ∙ memory t) ∙ stored-shown c t in
      let at_id : (attrs.vehicle_id == v) ≡ true = rw is_id (eq_refl v) in
      rw (live-process S live L t u attrs vp s here named_id w v, stored, at_id) refl

  run_stream-reference :
      (es : Elements) (s : S.State) (c : Memory)
      → Remembers c s
      → (run_stream (process S) (share vehicle (λ k. k == v) es) s).1
        ≡ reference c (positions_of v es)
  unfolding run_stream share reference positions_of
  run_stream-reference [] s c memory = refl
  run_stream-reference ((t, u, bytes b) ∷ es) s c memory = run_stream-reference es s c memory
  run_stream-reference ((t, u, other) ∷ es) s c memory = run_stream-reference es s c memory
  run_stream-reference ((t, u, message none) ∷ es) s c memory = run_stream-reference es s c memory
  run_stream-reference ((t, u, message (some e)) ∷ es) s c memory =
      elim (Bool-cases (vehicle e == v)) [
        | inl at_v ↦
            let is_v : vehicle e ≡ v = ground (arith, eq_iff (vehicle e) v) in
            rw
              (
                at_v,
                process-sent t u e s c is_v memory,
                run_stream-reference es (process S t u (some e) s).0 (some (e, u +ℤ hour))
                    (process-Remembers t u e s c is_v memory),
              )
              refl
        | inr elsewhere ↦ rw elsewhere (run_stream-reference es s c memory)
      ]

  -- For any elements of any vehicles, over any store that keeps the laws and shows for a named vehicle
  -- what the machine remembers: the stop events about the vehicle that `doStream` sends are those
  -- that the machine sends for the vehicle's positions alone, in the same order.
  pub do_stream-reference :
      (unmarshal : List ℕ → Option VehiclePositionEvent) (es : Elements) (s : S.State) (c : Memory)
      → Remembers c s
      → about (λ k. k == v) (do_stream S unmarshal es s).1
        ≡ about (λ k. k == v) (reference c (positions_of v (decoded unmarshal es)))
  do_stream-reference unmarshal es s c memory =
      about-do_stream S live L (λ k. k == v) unmarshal es s s (λ k h w. refl)
      ∙ ap (about (λ k. k == v)) (
          ap (λ r. r.1)
            (do_stream-decoded S unmarshal (share vehicle (λ k. k == v) (decoded unmarshal es)) s)
          ∙ ap (λ l. (run_stream (process S) l s).1)
              (decoded-share unmarshal (λ k. k == v) (decoded unmarshal es))
          ∙ run_stream-reference (decoded unmarshal es) s c memory)
