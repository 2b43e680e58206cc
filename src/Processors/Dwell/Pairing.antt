-- ===== src/Processors/Dwell/Pairing.antt =====
-- An arrival and the departure that follows it at the same key.
use tpm_go.Prelude.{
  ℕ, ◌≡◌, ◌∙◌, refl, false, Option, none, some, String, List, [], ◌∷◌, arith, ltb, if◌then◌else◌,
}
use tpm_go.Prelude.Int.{ℤ, pos, ◌+ℤ◌, ◌-ℤ◌, ◌≤ℤ◌, -ℤ_parts, le→ltb_ℤ}
use tpm_go.Prelude.Text.{◌==◌, eq_refl}
use tpm_go.Events.Timestamp.{TimeOps, TimeLaws, hour}
use tpm_go.Events.Stop.{arrival, departure, StopEvent}
use tpm_go.Events.Message.{ProtoMessage, stop}
use tpm_go.StateStore.Interface.{StateStore, TypedLaws}
use tpm_go.Processors.Elapsed.{IsAt, seconds-IsAt}
use tpm_go.Processors.Element.{new_stop_event, Element, message, bytes, other, run_stream}
use tpm_go.Processors.Dwell.{key_of, dwell_seconds, dwell_event, process, do_stream}
use tpm_go.Processors.Dwell.Turn.{arrival-live, departure-sent, departure-live, elsewhere-live}

abbrev pub Elements : Type 0
Elements = List (ℤ × ℤ × Element StopEvent)

-- No element is an event of the key `k`.
abbrev pub IsElsewhere : String → Elements → Type 0
IsElsewhere k [] = Unit
IsElsewhere k ((t, u, message (some e)) ∷ es) = ((key_of e == k) ≡ false) × IsElsewhere k es
IsElsewhere k (_ ∷ es) = IsElsewhere k es

module _ (T : TimeOps) (S : StateStore) (live : ℤ → String → S.State → Option ProtoMessage)
    (L : TypedLaws S live new_stop_event) where
  live-do_stream :
      (k : String) (es : Elements) (s : S.State) (w : ℤ)
      → IsElsewhere k es
      → live w k (do_stream T S es s).0 ≡ live w k s
  unfolding do_stream run_stream process
  live-do_stream k [] s w h = refl
  live-do_stream k ((t, u, message (some e)) ∷ es) s w (other_key, h) =
      live-do_stream k es (process T S t u (some e) s).0 w h
      ∙ elsewhere-live T S live L t u e s w k other_key
  live-do_stream k ((t, u, message none) ∷ es) s w h = live-do_stream k es s w h
  live-do_stream k ((t, u, bytes b) ∷ es) s w h = live-do_stream k es s w h
  live-do_stream k ((t, u, other) ∷ es) s w h = live-do_stream k es s w h

  -- An arrival at `m` seconds, then any elements of other keys, then a departure of the arrival's
  -- key at `n` seconds, read within an hour of the arrival: the dwell time event of the two is
  -- sent, with n - m seconds, unless the departure is before the arrival. Then nothing is sent.
  -- In both cases the key is forgotten.
  pub arrival-departure :
      (K : TimeLaws T) (t u t' u' : ℤ) (a d : StopEvent) (m n : ℕ) (es : Elements) (s : S.State)
      → a.stop_event_type ≡ arrival
      → d.stop_event_type ≡ departure
      → key_of d ≡ key_of a
      → t' ≤ℤ u +ℤ hour
      → IsAt T m a
      → IsAt T n d
      → IsElsewhere (key_of a) es
      → let before = (do_stream T S ((t, u, message (some a)) ∷ es) s).0 in
        let (after, sent) = process T S t' u' (some d) before in
        (sent ≡ (if ltb n m then [] else dwell_event T a d ∷ []))
        × ((dwell_event T a d).dwell_time_seconds ≡ pos n -ℤ pos m)
        × ((w : ℤ) → live w (key_of a) after ≡ none)
  unfolding process do_stream
  arrival-departure K t u t' u' a d m n es s ha hd same soon am dn h =
      let key : String = key_of a in
      let s₁ : S.State = (process T S t u (some a) s).0 in
      let s₂ : S.State = (do_stream T S es s₁).0 in
      let seconds : dwell_seconds T a d ≡ pos n -ℤ pos m =
        unfold dwell_seconds in seconds-IsAt T K a d m n am dn in
      let awaits : live t' (key_of d) s₂ ≡ some (some (stop (some a))) = rw same (
        live-do_stream key es s₁ t' h
        ∙ rw (
          arrival-live T S live L t u a s ha t' key,
          eq_refl key,
          le→ltb_ℤ (u +ℤ hour) t' soon,
        )) in
      (
        departure-sent T S live L t' u' d s₂ a hd awaits
            ∙ ground (arith, seconds, -ℤ_parts (pos n) (pos m)),
        unfold dwell_event in seconds,
        λ w.
            departure-live T S live L t' u' d s₂ (some (stop (some a))) hd awaits w key
            ∙ rw (same, eq_refl key),
      )
