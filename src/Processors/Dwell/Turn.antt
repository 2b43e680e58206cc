-- ===== src/Processors/Dwell/Turn.antt =====
-- One turn of the dwell processor over any store that keeps the laws.
use tpm_go.Prelude.{◌≡◌, refl, false, Option, none, some, String, [], ◌∷◌, arith, if◌then◌else◌}
use tpm_go.Prelude.Int.{ℤ, pos, ◌+ℤ◌, ltb_ℤ}
use tpm_go.Prelude.Text.{◌==◌}
use tpm_go.Events.Timestamp.{TimeOps, hour}
use tpm_go.Events.Stop.{arrival, departure, StopEvent}
use tpm_go.Events.Message.{ProtoMessage, stop}
use tpm_go.StateStore.Interface.{StateStore, TypedLaws, until}
use tpm_go.Processors.Element.{new_stop_event}
use tpm_go.Processors.Dwell.{key_of, dwell_seconds, dwell_event, process}

module _ (T : TimeOps) (S : StateStore) (live : ℤ → String → S.State → Option ProtoMessage)
    (L : TypedLaws S live new_stop_event) (t u : ℤ) (e : StopEvent) (s : S.State) where
  pub arrival-sent : e.stop_event_type ≡ arrival → (process T S t u (some e) s).1 ≡ []
  unfolding process
  arrival-sent h = ground arith

  pub arrival-live :
      e.stop_event_type ≡ arrival
      → (w : ℤ) (k : String)
      → live w k (process T S t u (some e) s).0
        ≡ (if key_of e == k then until (u +ℤ hour) w (some (stop (some e))) else live w k s)
  unfolding process
  arrival-live h w k =
      ground (arith, L.live-set u w (key_of e) k (some (stop (some e))) hour s refl refl)

  pub departure-sent :
      (a : StopEvent)
      → e.stop_event_type ≡ departure
      → live t (key_of e) s ≡ some (some (stop (some a)))
      → (process T S t u (some e) s).1
        ≡ (if ltb_ℤ (dwell_seconds T a e) (pos 0) then [] else dwell_event T a e ∷ [])
  unfolding process
  departure-sent a h found = ground (arith, L.get-live t (key_of e) s)

  pub departure-live :
      (m : ProtoMessage)
      → e.stop_event_type ≡ departure
      → live t (key_of e) s ≡ some m
      → (w : ℤ) (k : String)
      → live w k (process T S t u (some e) s).0 ≡ (if key_of e == k then none else live w k s)
  unfolding process
  departure-live m h found w k =
      ground (arith, L.get-live t (key_of e) s, L.live-delete w (key_of e) k s)

  pub departure-orphan :
      e.stop_event_type ≡ departure
      → live t (key_of e) s ≡ none
      → process T S t u (some e) s ≡ (s, [])
  unfolding process
  departure-orphan h lost = ground (arith, L.get-live t (key_of e) s)

  -- A turn about one key leaves every other key alone.
  pub elsewhere-live :
      (w : ℤ) (k : String)
      → (key_of e == k) ≡ false
      → live w k (process T S t u (some e) s).0 ≡ live w k s
  unfolding process
  elsewhere-live w k other = ground (
    arith,
    L.live-set u w (key_of e) k (some (stop (some e))) hour s refl refl,
    L.live-delete w (key_of e) k s,
  )
