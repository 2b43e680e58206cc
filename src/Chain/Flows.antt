-- ===== src/Chain/Flows.antt =====
-- The pipelines from an agency's feed to the derived events, one by one.
use tpm_go.Prelude.{
  ◌≡◌, refl, sym, subst, String, Option, none, some, List, [], ◌∷◌, All, All-append, All-map,
  map-All,
}
use tpm_go.Prelude.Int.{ℤ}
use tpm_go.Events.Timestamp.{TimeLaws}
use tpm_go.Events.Timestamp.Elapsed.{IsInEra}
use tpm_go.Events.Feed.{FeedMessageEvent}
use tpm_go.Events.Message.{
  ProtoMessage, vehicle_position, stop, dwell_time, headway_time, travel_time,
}
use tpm_go.StateStore.Interface.{StateStore, TypedLaws}
use tpm_go.Processors.Element.{Element, new_stop_event, run_stream, run_stream-keeps}
use tpm_go.Processors.FeedMessages
use tpm_go.Processors.VehiclePositions
use tpm_go.Processors.VehiclePositions.Sound.{IsPosition, send_feed-IsPosition}
use tpm_go.Processors.Dwell
use tpm_go.Processors.Headway
use tpm_go.Processors.TravelTime
use tpm_go.Processors.StopEvents
use tpm_go.Processors.StopEvents.{new_message}
use tpm_go.Pipelines.{
  feed_message_processor, vehicle_position_processor, stop_event_processor, dwell_event_processor,
  headway_event_processor, travel_time_processor,
}
use tpm_go.Pipelines.Items.{
  feed_event, event, seen_as, without_instants, as_gtfs_feed, as_feed_event, as_position, as_stop,
}
use tpm_go.Pipelines.Flows.{Libraries, Items, through}
use tpm_go.Chain.Facts.{IsSentStop, IsSeenSomewhere, IsStoredStop, Holds}
use tpm_go.Chain.Stops.{IsReadPosition, process-keeps}
use tpm_go.Processors.StopEvents.Shared.{decoded, do_stream-decoded}
use tpm_go.Chain.Derived.{
  IsAgencyDwell, IsAgencyHeadway, IsAgencyTravel, dwell-keeps, headway-keeps, travel-keeps,
}
use tpm_go.Chain.Items.{
  IsFeedItem, IsPositionItem, IsStopItem, IsDerivedItem, OnItem, position-HasMessage,
  stop-HasMessage,
}

module _ (X : Libraries) (K : TimeLaws X.time)
    (in_era : (v : Option X.gtfs.VehiclePosition) → IsInEra (X.gtfs.get_timestamp v))
    (agency : String) (S : StateStore) where
  All-send :
      (o : Option (Option X.gtfs.FeedMessage)) (later : List (FeedMessageEvent X.gtfs))
      → All (λ e. e.agency_id ≡ agency) later
      → All (λ e. e.agency_id ≡ agency) (FeedMessages.send X.gtfs agency X.unmarshal_feed o later)
  unfolding FeedMessages.send
  All-send none later h = h
  All-send (some feed) later h = (refl, h)

  feed_messages-agency :
      (es : List (Element X.gtfs.FeedMessage))
      → All (λ e. e.agency_id ≡ agency) (FeedMessages.do_stream X.gtfs agency X.unmarshal_feed es)
  unfolding FeedMessages.do_stream
  feed_messages-agency [] = tt
  feed_messages-agency (e ∷ es) =
      All-send (FeedMessages.receive X.gtfs agency X.unmarshal_feed e)
        (FeedMessages.do_stream X.gtfs agency X.unmarshal_feed es) (feed_messages-agency es)

  vehicle_positions-IsPosition :
      (xs : Items X S)
      → All (OnItem X.time agency (IsFeedItem X.time agency)) xs
      → All (IsPosition X.time agency) (
          VehiclePositions.do_stream X.time X.gtfs X.widen
            (without_instants (seen_as as_feed_event xs)))
  unfolding VehiclePositions.do_stream without_instants seen_as as_feed_event
  vehicle_positions-IsPosition [] h = tt
  vehicle_positions-IsPosition ((t, u, feed_event (some e)) ∷ xs) h =
      All-append (IsPosition X.time agency)
        (VehiclePositions.send_feed X.time X.gtfs X.widen (some e))
        (VehiclePositions.do_stream X.time X.gtfs X.widen
          (without_instants (seen_as as_feed_event xs)))
        (subst
          (λ a. All (IsPosition X.time agency) (
            VehiclePositions.send_feed X.time X.gtfs X.widen
              (some (record { agency_id = a; feed_message = e.feed_message }))))
          (sym h.0) (send_feed-IsPosition X.time K X.gtfs X.widen in_era agency e.feed_message))
        (vehicle_positions-IsPosition xs h.1)
  vehicle_positions-IsPosition (_ ∷ xs) h = absurd h.0

  -- The pipelines one by one.
  module _ (Store : Type 0) where
    pub feed_messages-IsFeedItem :
        (xs : Items X S) (s : S.State)
        → All
            (IsFeedItem X.time agency)
            (through X S {Store = Store} (feed_message_processor agency) xs s).1
    unfolding through
    feed_messages-IsFeedItem xs s =
        map-All (λ e. feed_event (some e)) (IsFeedItem X.time agency)
          (FeedMessages.do_stream X.gtfs agency X.unmarshal_feed
            (without_instants (seen_as as_gtfs_feed xs)))
          (feed_messages-agency (without_instants (seen_as as_gtfs_feed xs)))

    pub vehicle_positions-IsPositionItem :
        (xs : Items X S) (s : S.State)
        → All (OnItem X.time agency (IsFeedItem X.time agency)) xs
        → All
            (IsPositionItem X.time agency)
            (through X S {Store = Store} vehicle_position_processor xs s).1
    unfolding through
    vehicle_positions-IsPositionItem xs s h =
        map-All (λ e. event (vehicle_position (some e))) (IsPositionItem X.time agency)
          (VehiclePositions.do_stream X.time X.gtfs X.widen
            (without_instants (seen_as as_feed_event xs)))
          (vehicle_positions-IsPosition xs h)

  module _ {Store : Type 0} (live : ℤ → String → S.State → Option ProtoMessage) where
    pub stop_events-IsStopItem :
        (L : TypedLaws S live new_message) (store : Store) (xs : Items X S) (s : S.State)
        → All (OnItem X.time agency (IsPositionItem X.time agency)) xs
        → Holds live IsSeenSomewhere s
        → All (IsStopItem X.time agency) (through X S (stop_event_processor store) xs s).1
    unfolding through
    stop_events-IsStopItem L store xs s h i =
        let es = decoded X.unmarshal_position (seen_as as_position xs) in
        let (after, sent) =
          run_stream-keeps (StopEvents.process S) (Holds live IsSeenSomewhere)
            (IsReadPosition X.time agency) (IsSentStop X.time agency)
            (process-keeps X.time agency S live L) es s
            (position-HasMessage X.time agency X.unmarshal_position xs h) i in
        rw (do_stream-decoded S X.unmarshal_position (seen_as as_position xs) s) (
          map-All (λ e. event (stop e)) (IsStopItem X.time agency)
            (run_stream (StopEvents.process S) es s).1
            (All-map (IsSentStop X.time agency)
              (λ e. IsStopItem {G = X.gtfs} X.time agency (event (stop e)))
              (λ o. elim o [ none ↦ λ h. h | some e ↦ λ h. h ])
              (run_stream (StopEvents.process S) es s).1 sent))

    module _ (L : TypedLaws S live new_stop_event) where
      pub dwells-IsDerivedItem :
          (store : Store) (xs : Items X S) (s : S.State)
          → All (OnItem X.time agency (IsStopItem X.time agency)) xs
          → Holds live (IsStoredStop X.time agency) s
          → All (IsDerivedItem X.time agency) (through X S (dwell_event_processor store) xs s).1
      unfolding through Dwell.do_stream
      dwells-IsDerivedItem store xs s h i =
          map-All (λ d. event (dwell_time (some d))) (IsDerivedItem X.time agency)
            (Dwell.do_stream X.time S (seen_as as_stop xs) s).1
            (run_stream-keeps (Dwell.process X.time S) (Holds live (IsStoredStop X.time agency))
              (IsSentStop X.time agency) (IsAgencyDwell agency) (dwell-keeps X.time S agency live L)
              (seen_as as_stop xs) s (stop-HasMessage X.time agency xs h) i).1

      pub headways-IsDerivedItem :
          (store : Store) (xs : Items X S) (s : S.State)
          → All (OnItem X.time agency (IsStopItem X.time agency)) xs
          → Holds live (IsStoredStop X.time agency) s
          → All (IsDerivedItem X.time agency) (through X S (headway_event_processor store) xs s).1
      unfolding through Headway.do_stream
      headways-IsDerivedItem store xs s h i =
          map-All (λ d. event (headway_time (some d))) (IsDerivedItem X.time agency)
            (Headway.do_stream X.time S (seen_as as_stop xs) s).1
            (run_stream-keeps (Headway.process X.time S) (Holds live (IsStoredStop X.time agency))
              (IsSentStop X.time agency) (IsAgencyHeadway agency)
              (headway-keeps X.time S agency live L) (seen_as as_stop xs) s
              (stop-HasMessage X.time agency xs h) i).1

      pub travels-IsDerivedItem :
          (store : Store) (xs : Items X S) (s : S.State)
          → All (OnItem X.time agency (IsStopItem X.time agency)) xs
          → Holds live (IsStoredStop X.time agency) s
          → All (IsDerivedItem X.time agency) (through X S (travel_time_processor store) xs s).1
      unfolding through TravelTime.do_stream
      travels-IsDerivedItem store xs s h i =
          map-All (λ d. event (travel_time (some d))) (IsDerivedItem X.time agency)
            (TravelTime.do_stream X.time S (seen_as as_stop xs) s).1
            (run_stream-keeps (TravelTime.process X.time S)
              (Holds live (IsStoredStop X.time agency)) (IsSentStop X.time agency)
              (IsAgencyTravel agency) (travel-keeps X.time S agency live L) (seen_as as_stop xs) s
              (stop-HasMessage X.time agency xs h) i).1
