-- ===== src/Processors/StopEvents/About.antt =====
-- What `doStream` of processors/transit/stop_events/stop_event.go sends about some of the vehicles.
use tpm_go.Prelude.{
  ◌≡◌, refl, Bool, false, ℕ, String, Option, none, some, List, [], ◌∷◌, ◌++◌, Bool-cases, inl, inr,
  if◌then◌else◌, All, All-append,
}
use tpm_go.Prelude.Int.{ℤ}
use tpm_go.Prelude.Merge.{IsMerge-image, left_only}
use tpm_go.Events.Attributes
use tpm_go.Events.VehiclePosition.{VehiclePositionEvent}
use tpm_go.Events.Stop.{StopEvent}
use tpm_go.Events.Message.{ProtoMessage}
use tpm_go.StateStore.Interface.{StateStore, TypedLaws}
use tpm_go.Processors.Element.{bytes, message, other, run_stream}
use tpm_go.Processors.Keyed.Shards.{SameOn, share, others}
use tpm_go.Processors.StopEvents.{new_message, process, do_stream}
use tpm_go.Processors.StopEvents.Sent.{IsOf, process-IsOf}
use tpm_go.Processors.StopEvents.Shared.{
  Elements, vehicle, decoded, decoded-share, do_stream-decoded, stop_events-IsMerge,
}

module _ (mine : String → Bool) where
  -- The events that are not nil, of these vehicles.
  unfoldable pub about : List (Option StopEvent) → List StopEvent
  about [] = []
  about (none ∷ es) = about es
  about (some e ∷ es) =
      let rest = about es in
      if mine (Attributes.get_vehicle_id e.attributes) then e ∷ rest else rest

  about-cons :
      (o : Option StopEvent) (es : List (Option StopEvent))
      → about (o ∷ es) ≡ about (o ∷ []) ++ about es
  unfolding about
  about-cons none es = refl
  about-cons (some e) es = elim (Bool-cases (mine (Attributes.get_vehicle_id e.attributes))) [
    | inl is_mine ↦ rw is_mine refl
    | inr not_mine ↦ rw not_mine refl
  ]

  -- The stop event, if it is not nil, is of another vehicle.
  abbrev IsElsewhere : Option StopEvent → Type 0
  IsElsewhere none = Unit
  IsElsewhere (some e) = mine (Attributes.get_vehicle_id e.attributes) ≡ false

  about-elsewhere : (es : List (Option StopEvent)) → All IsElsewhere es → about es ≡ []
  unfolding about
  about-elsewhere [] h = refl
  about-elsewhere (none ∷ es) h = about-elsewhere es h.1
  about-elsewhere (some e ∷ es) h = rw h.0 (about-elsewhere es h.1)

  IsOf-IsElsewhere :
      (v : String)
      → mine v ≡ false
      → (es : List (Option StopEvent)) → All (IsOf v) es
      → All IsElsewhere es
  IsOf-IsElsewhere v h [] k = tt
  IsOf-IsElsewhere v h (none ∷ es) k = (tt, IsOf-IsElsewhere v h es k.1)
  IsOf-IsElsewhere v h (some e ∷ es) k = (rw k.0 h, IsOf-IsElsewhere v h es k.1)

module _ (S : StateStore) (live : ℤ → String → S.State → Option ProtoMessage)
    (L : TypedLaws S live new_message) (mine : String → Bool) where
  run_stream-IsElsewhere :
      (es : Elements) (s : S.State)
      → All (IsElsewhere mine) (run_stream (process S) (share vehicle (others mine) es) s).1
  unfolding share run_stream
  run_stream-IsElsewhere [] s = tt
  run_stream-IsElsewhere ((t, u, bytes b) ∷ es) s = run_stream-IsElsewhere es s
  run_stream-IsElsewhere ((t, u, other) ∷ es) s = run_stream-IsElsewhere es s
  run_stream-IsElsewhere ((t, u, message none) ∷ es) s = run_stream-IsElsewhere es s
  run_stream-IsElsewhere ((t, u, message (some e)) ∷ es) s = elim (Bool-cases (mine (vehicle e))) [
    | inl is_mine ↦ rw is_mine (run_stream-IsElsewhere es s)
    | inr not_mine ↦ rw not_mine (
        All-append (IsElsewhere mine) (process S t u (some e) s).1
          (run_stream (process S) (share vehicle (others mine) es) (process S t u (some e) s).0).1
          (IsOf-IsElsewhere mine (vehicle e) not_mine (process S t u (some e) s).1
            (process-IsOf S live L t u e s))
          (run_stream-IsElsewhere es (process S t u (some e) s).0))
  ]

  module _ (unmarshal : List ℕ → Option VehiclePositionEvent) where
    do_stream-elsewhere :
        (es : Elements) (s : S.State)
        → about mine
            (do_stream S unmarshal (share vehicle (others mine) (decoded unmarshal es)) s).1
          ≡ []
    do_stream-elsewhere es s =
        rw
          (
            do_stream-decoded S unmarshal (share vehicle (others mine) (decoded unmarshal es)) s,
            decoded-share unmarshal (others mine) (decoded unmarshal es),
          )
          (about-elsewhere mine
            (run_stream (process S) (share vehicle (others mine) (decoded unmarshal es)) s).1
            (run_stream-IsElsewhere (decoded unmarshal es) s))

    -- What is sent about these vehicles for a channel is what is sent about them for their
    -- positions only, over any store that shows the same under them.
    pub about-do_stream :
        (es : Elements) (s s' : S.State)
        → SameOn live mine s s'
        → about mine (do_stream S unmarshal es s).1
          ≡ about mine (do_stream S unmarshal (share vehicle mine (decoded unmarshal es)) s').1
    about-do_stream es s s' same =
        left_only
          (IsMerge-image (about mine) (unfold about in refl) (about-cons mine)
            (stop_events-IsMerge S live L unmarshal mine es s s' s same (λ k h w. refl)))
          (do_stream-elsewhere es s)
