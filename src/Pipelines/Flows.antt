-- ===== src/Pipelines/Flows.antt =====
-- The processors of processors/processor.go as flows: what goes into the channel `in` of each and
-- what comes out of `out`, as the interface `Processor` shows it to a pipeline.
use tpm_go.Prelude.{ℕ, Option, some, List, map}
use tpm_go.Prelude.Int.{ℤ}
use tpm_go.Events.Timestamp.{TimeOps}
use tpm_go.Events.Feed.{Gtfs}
use tpm_go.Events.VehiclePosition.{VehiclePositionEvent}
use tpm_go.Events.Message.{vehicle_position, stop, dwell_time, travel_time, headway_time}
use tpm_go.StateStore.Interface.{StateStore}
use tpm_go.Processors.FeedMessages
use tpm_go.Processors.VehiclePositions
use tpm_go.Processors.StopEvents
use tpm_go.Processors.Dwell
use tpm_go.Processors.Headway
use tpm_go.Processors.TravelTime
use tpm_go.Pipelines.Parts.{
  Processor, feed_message_processor, vehicle_position_processor, stop_event_processor,
  dwell_event_processor, headway_event_processor, travel_time_processor,
}
use tpm_go.Pipelines.Items.{
  Item, event, feed_event, seen_as, without_instants, as_gtfs_feed, as_feed_event, as_position,
  as_stop,
}

-- What the processors use of the libraries: the clock's types, the GTFS bindings, the conversion of
-- a float32 and `proto.Unmarshal` into a new message, with `none` where it fails.
pub record Libraries : Type 1 where
  pub time : TimeOps
  pub gtfs : Gtfs
  pub widen : ℕ → ℕ
  pub unmarshal_feed : List ℕ → Option gtfs.FeedMessage
  pub unmarshal_position : List ℕ → Option VehiclePositionEvent

module _ (X : Libraries) (S : StateStore) where
  abbrev pub Items : Type 0
  Items = List (ℤ × ℤ × Item X.gtfs)

  -- The state is that of the processor's store.
  unfoldable pub through :
      {Store : Type 0} → Processor Store → Items → S.State → S.State × List (Item X.gtfs)
  through (feed_message_processor agency) xs s = (
    s,
    map (λ e. feed_event (some e))
        (FeedMessages.do_stream X.gtfs agency X.unmarshal_feed
          (without_instants (seen_as as_gtfs_feed xs))),
  )
  through vehicle_position_processor xs s = (
    s,
    map (λ e. event (vehicle_position (some e)))
        (VehiclePositions.do_stream X.time X.gtfs X.widen
          (without_instants (seen_as as_feed_event xs))),
  )
  through (stop_event_processor store) xs s =
      let (s', sent) = StopEvents.do_stream S X.unmarshal_position (seen_as as_position xs) s in
      (s', map (λ e. event (stop e)) sent)
  through (dwell_event_processor store) xs s =
      let (s', sent) = Dwell.do_stream X.time S (seen_as as_stop xs) s in
      (s', map (λ e. event (dwell_time (some e))) sent)
  through (headway_event_processor store) xs s =
      let (s', sent) = Headway.do_stream X.time S (seen_as as_stop xs) s in
      (s', map (λ e. event (headway_time (some e))) sent)
  through (travel_time_processor store) xs s =
      let (s', sent) = TravelTime.do_stream X.time S (seen_as as_stop xs) s in
      (s', map (λ e. event (travel_time (some e))) sent)
