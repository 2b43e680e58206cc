-- ===== src/Tests/Derived.antt =====
-- Two trains that leave a stop one after the other, from their feeds to the headway between them, and
-- the instance of the theorem on derived events there.
use tpm_go.Prelude.{
  ℕ, ◌≡◌, refl, Option, none, some, String, List, [], ◌∷◌, All, arith, map, ◌+◌, ◌%◌,
}
use tpm_go.Prelude.Int.{ℤ, pos, ◌*ℤ◌, ◌+ℤ◌, ◌-ℤ◌}
use tpm_go.Prelude.Text.{◌<>◌}
use tpm_go.Prelude.Decimal.{format_uint}
use tpm_go.Events.Feed.{Gtfs}
use tpm_go.Events.Timestamp.{sub}
use tpm_go.Events.Timestamp.Elapsed.{IsInEra}
use tpm_go.Events.Message.{headway_time}
use tpm_go.StateStore.Interface.{typed}
use tpm_go.StateStore.InMemory.{get, set}
use tpm_go.StateStore.InMemory.Laws.{in_memory, live, in_memory-StoreLaws}
use tpm_go.Pipelines.{
  feed_message_processor, vehicle_position_processor, stop_event_processor, headway_event_processor,
}
use tpm_go.Pipelines.Items.{
  Item, gtfs_feed, event, seen_as, without_instants, as_gtfs_feed, as_feed_event, as_position,
  as_stop,
}
use tpm_go.Pipelines.Flows.{Libraries, through}
use tpm_go.Processors.FeedMessages
use tpm_go.Processors.VehiclePositions
use tpm_go.Processors.StopEvents
use tpm_go.Processors.Headway
use tpm_go.Chain.{in_a_row}
use tpm_go.Chain.Facts.{IsSeenSomewhere, IsStoredStop}
use tpm_go.Chain.Items.{IsDerivedItem}
use tpm_go.Chain.Feed.{in_a_row-IsDerivedItem}
use tpm_go.Tests.Base.{exact, exact-TimeLaws}
use tpm_go.Tests.Chain.{stage, empty_store-Holds}

-- A train that stands at a stop, some seconds after a fixed time.
record Train : Type 0 where
  pub id : String
  pub stop : String
  pub seconds : ℕ

-- Bindings in which a feed is one train.
abbrev trains : Gtfs
trains = record {
  FeedMessage = Train;
  FeedEntity = Train;
  VehiclePosition = Train;
  VehicleDescriptor = String;
  TripDescriptor = String;
  Position = ℕ;
  get_entity = λ feed. feed ∷ [];
  get_vehicle = λ entity. entity;
  get_current_status = λ v. pos 1;
  get_stop_id = λ v. elim v [ none ↦ "" | some train ↦ train.stop ];
  get_current_stop_sequence = λ v. 1;
  get_timestamp = λ v. elim v [ none ↦ 0 | some train ↦ 1700000000 + train.seconds % 1000 ];
  get_descriptor = λ v. elim v [ none ↦ none | some train ↦ some train.id ];
  get_trip = λ v. none;
  get_position = λ v. none;
  get_id = λ v. elim v [ none ↦ "" | some id ↦ id ];
  get_trip_id = λ v. "t1";
  get_route_id = λ v. "Red";
  get_start_date = λ v. "20240101";
  get_direction_id = λ v. 0;
  get_latitude = λ v. 0;
  get_longitude = λ v. 0;
  in_transit_to_number = pos 2;
  stopped_at_number = pos 1;
  incoming_at_number = pos 0;
}

abbrev libraries : Libraries
libraries = record {
  time = exact;
  gtfs = trains;
  widen = λ n. n;
  unmarshal_feed = λ b. none;
  unmarshal_position = λ b. none;
}

abbrev feed : String → String → ℕ → Item trains
feed id stop seconds = gtfs_feed (some (record { id = id; stop = stop; seconds = seconds }))

-- Each train is seen at A and then at B.
abbrev received : List (Item trains)
received = feed "1" "A" 0 ∷ feed "1" "B" 100 ∷ feed "2" "A" 200 ∷ feed "2" "B" 300 ∷ []

abbrev sent : List (Item trains)
sent =
    in_a_row libraries in_memory String
      (stage (feed_message_processor "MBTA")
        ∷ stage vehicle_position_processor
        ∷ stage (stop_event_processor "memory")
        ∷ stage (headway_event_processor "memory")
        ∷ [])
      received

-- The trains, and the seconds, of a headway.
abbrev summary : Item trains → Option (String × String × ℤ)
summary (event (headway_time (some h))) =
    some (h.leading_vehicle_id, h.following_vehicle_id, h.headway_seconds)
summary _ = none

one_headway : map summary sent ≡ some ("1", "2", pos 200) ∷ []
unfolding in_a_row through seen_as without_instants as_gtfs_feed as_feed_event as_position as_stop
    FeedMessages.do_stream VehiclePositions.do_stream StopEvents.do_stream StopEvents.receive
    StopEvents.process StopEvents.transitions StopEvents.compare_with StopEvents.previous_attributes
    StopEvents.make_stop_event Headway.do_stream Headway.process Headway.key_of
    Headway.headway_event get set sub format_uint ◌<>◌ ◌*ℤ◌ ◌+ℤ◌ ◌-ℤ◌
one_headway = refl

in_a_row-IsDerivedItem_example : All (IsDerivedItem {G = trains} exact "MBTA") sent
in_a_row-IsDerivedItem_example =
    in_a_row-IsDerivedItem libraries exact-TimeLaws
      (λ v. elim v as (λ v. IsInEra (trains.get_timestamp v)) [
        | none ↦ omega arith
        | some train ↦ omega arith
      ])
      "MBTA" in_memory live (stage (feed_message_processor "MBTA"))
      (stage vehicle_position_processor) (stage (stop_event_processor "memory")) "memory" refl refl
      refl (typed in_memory-StoreLaws) (empty_store-Holds IsSeenSomewhere)
      (stage (headway_event_processor "memory")) received (typed in_memory-StoreLaws) tt
      (empty_store-Holds (IsStoredStop exact "MBTA"))
