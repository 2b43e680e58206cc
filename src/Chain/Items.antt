-- ===== src/Chain/Items.antt =====
-- What holds of the items on the way from an agency's feed, and of what the next processor sees of
-- them.
use tpm_go.Prelude.{◌≡◌, ℕ, String, Option, some, List, [], ◌∷◌, All}
use tpm_go.Prelude.Int.{ℤ}
use tpm_go.Events.Timestamp.{TimeOps}
use tpm_go.Events.Feed.{Gtfs}
use tpm_go.Events.VehiclePosition.{VehiclePositionEvent}
use tpm_go.Events.Message.{vehicle_position, stop, dwell_time, headway_time, travel_time}
use tpm_go.Processors.Element.{HasMessage}
use tpm_go.Processors.VehiclePositions.Sound.{IsPosition}
use tpm_go.Processors.StopEvents
use tpm_go.Processors.StopEvents.{new_message}
use tpm_go.Pipelines.Items.{Item, feed_event, event, seen_as, as_position, as_stop}
use tpm_go.Chain.{deliver}
use tpm_go.Chain.Facts.{IsStop, IsSentStop}
use tpm_go.Chain.Stops.{IsReadPosition}
use tpm_go.Processors.StopEvents.Shared.{decoded}
use tpm_go.Chain.Derived.{IsAgencyDwell, IsAgencyHeadway, IsAgencyTravel}

module _ {G : Gtfs} (T : TimeOps) (agency : String) where
  abbrev pub IsFeedItem : Item G → Type 0
  IsFeedItem (feed_event (some e)) = e.agency_id ≡ agency
  IsFeedItem _ = ⊥

  abbrev pub IsPositionItem : Item G → Type 0
  IsPositionItem (event (vehicle_position (some vp))) = IsPosition T agency vp
  IsPositionItem _ = ⊥

  abbrev pub IsStopItem : Item G → Type 0
  IsStopItem (event (stop (some e))) = IsStop T agency e
  IsStopItem _ = ⊥

  -- A derived event of the agency.
  abbrev pub IsDerivedItem : Item G → Type 0
  IsDerivedItem (event (dwell_time (some d))) = IsAgencyDwell agency d
  IsDerivedItem (event (headway_time (some h))) = IsAgencyHeadway agency h
  IsDerivedItem (event (travel_time (some r))) = IsAgencyTravel agency r
  IsDerivedItem _ = ⊥

  abbrev pub OnItem : (Item G → Type 0) → ℤ × ℤ × Item G → Type 0
  OnItem P (t, u, x) = P x

  pub All-deliver :
      (P : Item G → Type 0) (turns : List (ℤ × ℤ)) (xs : List (Item G))
      → All P xs
      → All (OnItem P) (deliver turns xs)
  All-deliver P [] xs h = tt
  All-deliver P ((t, u) ∷ turns) [] h = tt
  All-deliver P ((t, u) ∷ turns) (x ∷ xs) h = (h.0, All-deliver P turns xs h.1)

  pub position-HasMessage :
      (unmarshal : List ℕ → Option VehiclePositionEvent) (xs : List (ℤ × ℤ × Item G))
      → All (OnItem IsPositionItem) xs
      → All (HasMessage (IsReadPosition T agency)) (decoded unmarshal (seen_as as_position xs))
  unfolding seen_as as_position decoded StopEvents.receive
  position-HasMessage unmarshal [] h = tt
  position-HasMessage unmarshal ((t, u, event (vehicle_position (some vp))) ∷ xs) h =
      (h.0, position-HasMessage unmarshal xs h.1)
  position-HasMessage unmarshal (_ ∷ xs) h = absurd h.0

  pub stop-HasMessage :
      (xs : List (ℤ × ℤ × Item G))
      → All (OnItem IsStopItem) xs
      → All (HasMessage (IsSentStop T agency)) (seen_as as_stop xs)
  unfolding seen_as as_stop
  stop-HasMessage [] h = tt
  stop-HasMessage ((t, u, event (stop (some e))) ∷ xs) h = (h.0, stop-HasMessage xs h.1)
  stop-HasMessage (_ ∷ xs) h = absurd h.0
