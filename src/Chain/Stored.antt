-- ===== src/Chain/Stored.antt =====
-- The stores of the processors of derived events hold stop events that were read, and no others.
use tpm_go.Prelude.{◌≡◌, ◌⊎◌, inl, inr, ap, ◌∙◌, subst, String, Option, some, arith, refl}
use tpm_go.Prelude.Int.{ℤ}
use tpm_go.Events.Timestamp.{TimeOps, hour}
use tpm_go.Events.Stop.{StopEvent}
use tpm_go.Events.Message.{ProtoMessage, stop}
use tpm_go.StateStore.Interface.{StateStore, TypedLaws}
use tpm_go.Processors.Element.{as_stop_event, new_stop_event}
use tpm_go.Processors.Dwell
use tpm_go.Processors.Headway
use tpm_go.Processors.TravelTime
use tpm_go.Chain.Facts.{IsStop, IsStoredStop, Holds}

module _ (T : TimeOps) (S : StateStore) (live : ℤ → String → S.State → Option ProtoMessage)
    (L : TypedLaws S live new_stop_event) (t u : ℤ) (e : StopEvent) (s : S.State) (w : ℤ)
    (k : String) (m : ProtoMessage) where
  -- The message is what was live before, or the event.
  abbrev pub IsKept : Type 0
  IsKept = (live w k s ≡ some m) ⊎ (some (stop (some e)) ≡ m)

  pub dwell-IsKept : live w k (Dwell.process T S t u (some e) s).0 ≡ some m → IsKept
  unfolding Dwell.process
  dwell-IsKept found = ground (
    arith,
    L.live-set u w (Dwell.key_of e) k (some (stop (some e))) hour s refl refl,
    L.live-delete w (Dwell.key_of e) k s,
  )

  pub headway-IsKept : live w k (Headway.process T S t u (some e) s).0 ≡ some m → IsKept
  unfolding Headway.process
  headway-IsKept found =
      ground (arith, L.live-set u w (Headway.key_of e) k (some (stop (some e))) hour s refl refl)

  pub travel-IsKept : live w k (TravelTime.process T S t u (some e) s).0 ≡ some m → IsKept
  unfolding TravelTime.process
  travel-IsKept found =
      ground (arith, L.live-set u w (TravelTime.key_of e) k (some (stop (some e))) hour s refl refl)

  pub IsKept-IsStoredStop :
      (agency : String)
      → IsKept
      → IsStop T agency e
      → Holds live (IsStoredStop T agency) s
      → IsStoredStop T agency m
  IsKept-IsStoredStop agency (inl before) h i a was = i w k m before a was
  IsKept-IsStoredStop agency (inr now) h i a was =
      let same : some e ≡ some a = ap as_stop_event now ∙ was in
      let is_e : e ≡ a = ground arith in subst (IsStop T agency) is_e h
