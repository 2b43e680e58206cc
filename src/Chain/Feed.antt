-- ===== src/Chain/Feed.antt =====
-- From an agency's feed to the stop events and the derived events.
use tpm_go.Prelude.{◌≡◌, String, Option, List, [], ◌∷◌, All}
use tpm_go.Prelude.Int.{ℤ}
use tpm_go.Events.Timestamp.{TimeLaws}
use tpm_go.Events.Timestamp.Elapsed.{IsInEra}
use tpm_go.Events.Message.{ProtoMessage}
use tpm_go.StateStore.Interface.{StateStore, TypedLaws}
use tpm_go.Processors.Element.{new_stop_event}
use tpm_go.Processors.StopEvents.{new_message}
use tpm_go.Pipelines.{
  Processor, feed_message_processor, vehicle_position_processor, stop_event_processor,
  dwell_event_processor, headway_event_processor, travel_time_processor,
}
use tpm_go.Pipelines.Items.{Item}
use tpm_go.Pipelines.Flows.{Libraries, Items, through}
use tpm_go.Chain.{deliver, Stage, in_a_row}
use tpm_go.Chain.Facts.{IsSeenSomewhere, IsStoredStop, Holds}
use tpm_go.Chain.Items.{IsFeedItem, IsPositionItem, IsStopItem, IsDerivedItem, OnItem, All-deliver}
use tpm_go.Chain.Flows.{
  feed_messages-IsFeedItem, vehicle_positions-IsPositionItem, stop_events-IsStopItem,
  dwells-IsDerivedItem, headways-IsDerivedItem, travels-IsDerivedItem,
}

-- One of the three processors that read stop events.
abbrev pub IsDeriving : {Store : Type 0} → Processor Store → Type 0
IsDeriving (dwell_event_processor store) = Unit
IsDeriving (headway_event_processor store) = Unit
IsDeriving (travel_time_processor store) = Unit
IsDeriving _ = ⊥

module _ (X : Libraries) (K : TimeLaws X.time)
    (in_era : (v : Option X.gtfs.VehiclePosition) → IsInEra (X.gtfs.get_timestamp v))
    (agency : String) (S : StateStore) (live : ℤ → String → S.State → Option ProtoMessage) where
  deriving-IsDerivedItem :
      {Store : Type 0} (L : TypedLaws S live new_stop_event) (p : Processor Store) (xs : Items X S)
      (s : S.State)
      → IsDeriving p
      → All (OnItem X.time agency (IsStopItem X.time agency)) xs
      → Holds live (IsStoredStop X.time agency) s
      → All (IsDerivedItem X.time agency) (through X S p xs s).1
  deriving-IsDerivedItem L (dwell_event_processor store) xs s d h i =
      dwells-IsDerivedItem X K in_era agency S live L store xs s h i
  deriving-IsDerivedItem L (headway_event_processor store) xs s d h i =
      headways-IsDerivedItem X K in_era agency S live L store xs s h i
  deriving-IsDerivedItem L (travel_time_processor store) xs s d h i =
      travels-IsDerivedItem X K in_era agency S live L store xs s h i
  deriving-IsDerivedItem L _ xs s d h i = absurd d

  module _ {Store : Type 0} (feed positions stops : Stage S Store) (store : Store)
      (is_feed : feed.processor ≡ feed_message_processor agency)
      (is_positions : positions.processor ≡ vehicle_position_processor)
      (is_stops : stops.processor ≡ stop_event_processor store) (L : TypedLaws S live new_message)
      (seen : Holds live IsSeenSomewhere stops.state) where
    -- Where every vehicle's timestamp is before the year 2038, and every position that is live in the
    -- stop event processor's store, which keeps the laws, is at a named stop: whatever comes from
    -- the sources of an agency's feed message pipeline, what comes out of the stop event pipeline,
    -- behind the vehicle position pipeline, are stop events that are not nil, each of a named
    -- vehicle of the agency at a named stop, with a timestamp of whole seconds.
    pub in_a_row-IsStopItem :
        (xs : List (Item X.gtfs))
        → All (IsStopItem X.time agency) (in_a_row X S Store (feed ∷ positions ∷ stops ∷ []) xs)
    unfolding in_a_row
    in_a_row-IsStopItem xs =
        let fed =
          (through X S {Store = Store} (feed_message_processor agency) (deliver feed.turns xs)
            feed.state).1 in
        let placed =
          (through X S {Store = Store} vehicle_position_processor (deliver positions.turns fed)
            positions.state).1 in
        let fed_ok =
          feed_messages-IsFeedItem X K in_era agency S Store (deliver feed.turns xs) feed.state in
        let placed_ok =
          vehicle_positions-IsPositionItem X K in_era agency S Store (deliver positions.turns fed)
            positions.state
            (All-deliver X.time agency (IsFeedItem X.time agency) positions.turns fed fed_ok) in
        rw (is_feed, is_positions, is_stops)
          (stop_events-IsStopItem X K in_era agency S live L store (deliver stops.turns placed)
            stops.state
            (All-deliver X.time agency (IsPositionItem X.time agency) stops.turns placed placed_ok)
            seen)

    -- Under the same conditions, where every stop event that is live in the store of a fourth pipeline,
    -- which keeps the laws, is one of the agency too: the dwell times, headways or travel times that
    -- come out of it, whichever its processor sends, have the agency's id, and named vehicles and
    -- stops. A dwell time is not negative; a headway is positive and between two different
    -- vehicles; a travel time is positive and between two different stops.
    pub in_a_row-IsDerivedItem :
        (last : Stage S Store) (xs : List (Item X.gtfs))
        → TypedLaws S live new_stop_event
        → IsDeriving last.processor
        → Holds live (IsStoredStop X.time agency) last.state
        → All
            (IsDerivedItem X.time agency)
            (in_a_row X S Store (feed ∷ positions ∷ stops ∷ last ∷ []) xs)
    unfolding in_a_row
    in_a_row-IsDerivedItem last xs L' d i =
        deriving-IsDerivedItem L' last.processor
          (deliver last.turns (in_a_row X S Store (feed ∷ positions ∷ stops ∷ []) xs)) last.state d
          (All-deliver X.time agency (IsStopItem X.time agency) last.turns
            (in_a_row X S Store (feed ∷ positions ∷ stops ∷ []) xs) (in_a_row-IsStopItem xs))
          i
