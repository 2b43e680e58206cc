-- ===== src/Processors/StopEvents/Shared.antt =====
-- The loop of `processors/transit/stop_events/stop_event.go` in instances that share the vehicles
-- out.
use tpm_go.Prelude.{
  ℕ, ◌≡◌, refl, Bool, false, String, Option, none, some, List, [], ◌∷◌, arith, ap, Bool-cases,
  Option-cases, inl, inr,
}
use tpm_go.Prelude.Int.{ℤ}
use tpm_go.Prelude.Text.{◌==◌}
use tpm_go.Prelude.Merge.{IsMerge}
use tpm_go.Events.Attributes
use tpm_go.Events.Attributes.{EventAttributes}
use tpm_go.Events.VehiclePosition.{VehiclePositionEvent}
use tpm_go.Events.Message.{ProtoMessage}
use tpm_go.StateStore.Interface.{StateStore, TypedLaws}
use tpm_go.Processors.Element.{Element, bytes, message, other, run_stream}
use tpm_go.Processors.Keyed.{SameAt, KeyedLaws}
use tpm_go.Processors.Keyed.Shards.{SameOn, share, others, run_stream-shared}
use tpm_go.Processors.StopEvents.{new_message, receive, process, do_stream}
use tpm_go.Processors.StopEvents.Turn.{sent-process, live-process}

abbrev pub Elements : Type 0
Elements = List (ℤ × ℤ × Element VehiclePositionEvent)

-- The key of a position: the id of its vehicle.
abbrev pub vehicle : VehiclePositionEvent → String
vehicle e = Attributes.get_vehicle_id e.attributes

abbrev pub as_element : Option (Option VehiclePositionEvent) → Element VehiclePositionEvent
as_element none = other
as_element (some vp) = message vp

-- The channel with the positions in place of their bytes.
unfoldable pub decoded : (List ℕ → Option VehiclePositionEvent) → Elements → Elements
decoded unmarshal [] = []
decoded unmarshal ((t, u, e) ∷ es) = (t, u, as_element (receive unmarshal e)) ∷ decoded unmarshal es

-- The elements of a share are positions already.
pub decoded-share :
    (unmarshal : List ℕ → Option VehiclePositionEvent) (mine : String → Bool) (es : Elements)
    → decoded unmarshal (share vehicle mine es) ≡ share vehicle mine es
unfolding decoded share receive
decoded-share unmarshal mine [] = refl
decoded-share unmarshal mine ((t, u, bytes b) ∷ es) = decoded-share unmarshal mine es
decoded-share unmarshal mine ((t, u, other) ∷ es) = decoded-share unmarshal mine es
decoded-share unmarshal mine ((t, u, message none) ∷ es) = decoded-share unmarshal mine es
decoded-share unmarshal mine ((t, u, message (some e)) ∷ es) =
    elim (Bool-cases (mine (vehicle e))) [
      | inl is_mine ↦
          rw is_mine (ap (λ l. (t, u, message (some e)) ∷ l) (decoded-share unmarshal mine es))
      | inr not_mine ↦ rw not_mine (decoded-share unmarshal mine es)
    ]

module _ (S : StateStore) where
  pub do_stream-decoded :
      (unmarshal : List ℕ → Option VehiclePositionEvent) (es : Elements) (s : S.State)
      → do_stream S unmarshal es s ≡ run_stream (process S) (decoded unmarshal es) s
  unfolding do_stream run_stream decoded
  do_stream-decoded unmarshal [] s = refl
  do_stream-decoded unmarshal ((t, u, e) ∷ es) s = elim (Option-cases (receive unmarshal e)) [
    | inl skipped ↦ ground (arith, do_stream-decoded unmarshal es s)
    | inr (vp, received) ↦ ground (arith, do_stream-decoded unmarshal es (process S t u vp s).0)
  ]

  module _ (live : ℤ → String → S.State → Option ProtoMessage)
      (L : TypedLaws S live new_message) where
    process-elsewhere :
        (t u : ℤ) (e : VehiclePositionEvent) (s : S.State) (k : String)
        → (vehicle e == k) ≡ false
        → SameAt live k (process S t u (some e) s).0 s
    unfolding process
    process-elsewhere t u e s k h w = elim (Option-cases e.attributes) [
      | inl nil ↦ ground arith
      | inr (attrs, here) ↦ elim (Bool-cases (attrs.vehicle_id == "")) [
        | inl empty ↦ ground arith
        | inr full ↦ rw (live-process S live L t u attrs e s here full w k) (ground arith)
      ]
    ]

    process-here :
        (t u : ℤ) (e : VehiclePositionEvent) (s s' : S.State)
        → SameAt live (vehicle e) s s'
        → ((process S t u (some e) s).1 ≡ (process S t u (some e) s').1)
          × SameAt live (vehicle e) (process S t u (some e) s).0 (process S t u (some e) s').0
    unfolding process
    process-here t u e s s' same = elim (Option-cases e.attributes) [
      | inl nil ↦ (ground arith, λ w. ground (arith, same w))
      | inr (attrs, here) ↦ elim (Bool-cases (attrs.vehicle_id == "")) [
        | inl empty ↦ (ground arith, λ w. ground (arith, same w))
        | inr full ↦ (
          ground (
            arith,
            sent-process S live L t u attrs e s here full,
            sent-process S live L t u attrs e s' here full,
            same t,
          ),
          λ w. ground (
            arith,
            live-process S live L t u attrs e s here full w (vehicle e),
            live-process S live L t u attrs e s' here full w (vehicle e),
            same t,
            same w,
          ),
        )
      ]
    ]

    process-KeyedLaws : KeyedLaws live (process S) vehicle
    process-KeyedLaws = record {
      skip = λ t u s. unfold process in refl;
      elsewhere = process-elsewhere;
      here = process-here;
    }

    -- Over any store that keeps the laws: what two instances of the stop event processor send, of
    -- which one has the positions of some vehicles and the other one those of the rest, each over a
    -- store of its own that shows the same under the ids of its vehicles, is merged, in some way
    -- that keeps the order of each, what one instance sends for everything.
    pub stop_events-IsMerge :
        (unmarshal : List ℕ → Option VehiclePositionEvent) (mine : String → Bool) (es : Elements)
        (s s1 s2 : S.State)
        → SameOn live mine s s1
        → SameOn live (others mine) s s2
        → IsMerge
            (do_stream S unmarshal (share vehicle mine (decoded unmarshal es)) s1).1
            (do_stream S unmarshal (share vehicle (others mine) (decoded unmarshal es)) s2).1
            (do_stream S unmarshal es s).1
    stop_events-IsMerge unmarshal mine es s s1 s2 same1 same2 =
        rw
          (
            do_stream-decoded unmarshal (share vehicle mine (decoded unmarshal es)) s1,
            do_stream-decoded unmarshal (share vehicle (others mine) (decoded unmarshal es)) s2,
            do_stream-decoded unmarshal es s,
            decoded-share unmarshal mine (decoded unmarshal es),
            decoded-share unmarshal (others mine) (decoded unmarshal es),
          )
          (run_stream-shared (process S) live vehicle process-KeyedLaws mine (decoded unmarshal es)
            s s1 s2 same1 same2)
