-- ===== src/Processors/Dwell/Count.antt =====
-- The arrivals and the dwell times of a key, counted.
use tpm_go.Prelude.{
  ℕ, ◌≡◌, ◌≤◌, ◌⊎◌, ◌∙◌, ap, ◌+◌, refl, Option, none, some, String, List, [], ◌∷◌, arith, length,
  length-append, Option-cases, inl, inr,
}
use tpm_go.Prelude.Int.{ℤ}
use tpm_go.Prelude.Text.{eq_refl}
use tpm_go.Events.Timestamp.{TimeOps}
use tpm_go.Events.Stop.{EventType, arrival, departure, StopEvent}
use tpm_go.Events.Dwell.{DwellTimeEvent}
use tpm_go.Events.Message.{ProtoMessage}
use tpm_go.StateStore.Interface.{StateStore, TypedLaws}
use tpm_go.Processors.Element.{new_stop_event, Element, message, run_stream}
use tpm_go.Processors.Dwell.{key_of, process, do_stream}
use tpm_go.Processors.Dwell.Turn.{departure-live, departure-orphan, arrival-sent}

abbrev pub Turns : Type 0
Turns = List (ℤ × ℤ × StopEvent)

abbrev pub elements : Turns → List (ℤ × ℤ × Element StopEvent)
elements [] = []
elements ((t, u, e) ∷ es) = (t, u, message (some e)) ∷ elements es

abbrev pub IsOfKey : String → Turns → Type 0
IsOfKey k [] = Unit
IsOfKey k ((t, u, e) ∷ es) = (key_of e ≡ k) × IsOfKey k es

abbrev is_arrival : EventType → ℕ
is_arrival arrival = 1
is_arrival _ = 0

abbrev pub arrivals : Turns → ℕ
arrivals [] = 0
arrivals ((t, u, e) ∷ es) = is_arrival e.stop_event_type + arrivals es

EventType-cases : (x : EventType) → (x ≡ EventType.unknown) ⊎ ((x ≡ arrival) ⊎ (x ≡ departure))
EventType-cases EventType.unknown = inl refl
EventType-cases arrival = inr (inl refl)
EventType-cases departure = inr (inr refl)

module _ (T : TimeOps) (S : StateStore) (live : ℤ → String → S.State → Option ProtoMessage)
    (L : TypedLaws S live new_stop_event) (k : String) where
  abbrev pub IsGone : S.State → Type 0
  IsGone s = (w : ℤ) → live w k s ≡ none

  dwells : Turns → S.State → ℕ
  dwells es s = length (do_stream T S (elements es) s).1

  dwells-cons :
      (t u : ℤ) (e : StopEvent) (es : Turns) (s : S.State)
      → dwells ((t, u, e) ∷ es) s
        ≡ length (process T S t u (some e) s).1 + dwells es (process T S t u (some e) s).0
  unfolding dwells do_stream run_stream
  dwells-cons t u e es s =
      length-append (process T S t u (some e) s).1
        (do_stream T S (elements es) (process T S t u (some e) s).0).1

  length-sent : (t u : ℤ) (e : StopEvent) (s : S.State) → length (process T S t u (some e) s).1 ≤ 1
  unfolding process
  length-sent t u e s = ground arith

  process-unknown :
      (t u : ℤ) (e : StopEvent) (s : S.State)
      → e.stop_event_type ≡ EventType.unknown
      → process T S t u (some e) s ≡ (s, [])
  unfolding process
  process-unknown t u e s h = ground arith

  departure-IsGone :
      (t u : ℤ) (e : StopEvent) (s : S.State) (m : ProtoMessage)
      → key_of e ≡ k
      → e.stop_event_type ≡ departure
      → live t (key_of e) s ≡ some m
      → IsGone (process T S t u (some e) s).0
  departure-IsGone t u e s m here h found w =
      departure-live T S live L t u e s m h found w k ∙ rw (here, eq_refl k)

  -- From any store one more than the arrivals; none more, if the key is gone at the start.
  abbrev AreBounded : Turns → S.State → Type 0
  AreBounded es s = (dwells es s ≤ arrivals es + 1) × (IsGone s → dwells es s ≤ arrivals es)

  AreBounded-still :
      (t u : ℤ) (e : StopEvent) (es : Turns) (s : S.State)
      → process T S t u (some e) s ≡ (s, [])
      → AreBounded es s
      → AreBounded ((t, u, e) ∷ es) s
  AreBounded-still t u e es s still (most, fewer) =
      let same : dwells ((t, u, e) ∷ es) s ≡ dwells es s = rw (dwells-cons, still) (omega arith) in
      (omega arith, λ gone. let less = fewer gone in omega arith)

  AreBounded-cons :
      (t u : ℤ) (e : StopEvent) (es : Turns) (s : S.State)
      → key_of e ≡ k
      → AreBounded es (process T S t u (some e) s).0
      → AreBounded es s
      → AreBounded ((t, u, e) ∷ es) s
  AreBounded-cons t u e es s here after same = elim (EventType-cases e.stop_event_type) [
    | inl unknown ↦ AreBounded-still t u e es s (process-unknown t u e s unknown) same
    | inr (inl arrived) ↦
        let sent = ap (length {A = DwellTimeEvent}) (arrival-sent T S live L t u e s arrived) in
        let one = ap is_arrival arrived in
        let sum = dwells-cons t u e es s in (omega (arith, after.0), λ gone. omega (arith, after.0))
    | inr (inr departed) ↦ elim (Option-cases (live t (key_of e) s)) [
      | inl lost ↦
          AreBounded-still t u e es s (departure-orphan T S live L t u e s departed lost) same
      | inr (m, found) ↦
          let sent = length-sent t u e s in
          let sum = dwells-cons t u e es s in
          let less = after.1 (departure-IsGone t u e s m here departed found) in
          (omega arith, λ gone. cc (gone t, found, ap (λ (j : String). live t j s) here))
    ]
  ]

  are_bounded : (es : Turns) (s : S.State) → IsOfKey k es → AreBounded es s
  are_bounded [] s h = unfold dwells do_stream run_stream in omega arith
  are_bounded ((t, u, e) ∷ es) s (here, h) =
      AreBounded-cons t u e es s here (are_bounded es (process T S t u (some e) s).0 h)
        (are_bounded es s h)

  -- Where nothing is live under the key at the start, stop events of the key, at any instants and
  -- in any order, give at most as many dwell times as there are arrivals among them.
  dwells-le-arrivals :
      (es : Turns) (s : S.State)
      → IsOfKey k es
      → IsGone s
      → length (do_stream T S (elements es) s).1 ≤ arrivals es
  unfolding dwells
  dwells-le-arrivals es s h gone = (are_bounded es s h).1 gone
