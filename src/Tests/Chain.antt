-- ===== src/Tests/Chain.antt =====
-- Pipelines in a row over the test bindings, and instances of the theorems on them.
use tpm_go.Prelude.{◌≡◌, refl, String, some, List, [], ◌∷◌, All, arith, length}
use tpm_go.Prelude.Int.{ℤ, pos, ◌*ℤ◌, ◌+ℤ◌}
use tpm_go.Events.Message.{ProtoMessage}
use tpm_go.StateStore.Interface.{typed}
use tpm_go.StateStore.InMemory.Laws.{in_memory, live, in_memory-StoreLaws}
use tpm_go.Pipelines.{
  Processor, feed_message_processor, vehicle_position_processor, stop_event_processor,
}
use tpm_go.Pipelines.Items.{
  Item, raw, gtfs_feed, unknown, seen_as, without_instants, as_gtfs_feed, as_feed_event,
  as_position,
}
use tpm_go.Pipelines.Flows.{through}
use tpm_go.Processors.FeedMessages
use tpm_go.Processors.VehiclePositions
use tpm_go.Processors.StopEvents
use tpm_go.StateStore.InMemory.{get, set}
use tpm_go.Prelude.Decimal.{format_uint}
use tpm_go.Chain.{Stage, in_a_row}
use tpm_go.Chain.Facts.{IsSeenSomewhere, Holds}
use tpm_go.Chain.Items.{IsStopItem}
use tpm_go.Chain.Feed.{in_a_row-IsStopItem}
use tpm_go.Tests.Base.{exact, exact-TimeLaws, empty_store, seen}
use tpm_go.Tests.Positions.{bindings}
use tpm_go.Chain.Agencies.{do_stream-same_id}
use tpm_go.Trips.{event_at}
use tpm_go.Events.Attributes.{EventAttributes, stopped_at}
use tpm_go.Events.Stop.{arrival, departure}
use tpm_go.Processors.Element.{message}
use tpm_go.Processors.StopEvents.Journey.{position}
use tpm_go.Tests.Flows.{libraries}

abbrev pub turns : List (ℤ × ℤ)
turns = (pos 1, pos 1) ∷ (pos 2, pos 2) ∷ (pos 3, pos 3) ∷ (pos 4, pos 4) ∷ []

abbrev pub stage : Processor String → Stage in_memory String
stage p = record { processor = p; state = empty_store; turns = turns }

-- Bytes, a feed in which the vehicle is at one stop, another where it is at the next, and something else.
abbrev received : List (Item bindings)
received = raw [] ∷ gtfs_feed (some ("A" ∷ "" ∷ [])) ∷ unknown ∷ gtfs_feed (some ("B" ∷ [])) ∷ []

pub empty_store-Holds : (P : ProtoMessage → Type 0) → Holds live P empty_store
empty_store-Holds P w k m found = ground arith

abbrev to_stops : List (Stage in_memory String)
to_stops =
    stage (feed_message_processor "MBTA")
    ∷ stage vehicle_position_processor
    ∷ stage (stop_event_processor "memory")
    ∷ []

-- The departure from A and the arrival at B.
two_events : length (in_a_row libraries in_memory String to_stops received) ≡ 2
unfolding in_a_row through seen_as without_instants as_gtfs_feed as_feed_event as_position
    FeedMessages.do_stream VehiclePositions.do_stream StopEvents.do_stream StopEvents.receive
    StopEvents.process StopEvents.transitions StopEvents.compare_with StopEvents.previous_attributes
    StopEvents.make_stop_event get set format_uint ◌*ℤ◌ ◌+ℤ◌
two_events = refl

in_a_row-IsStopItem_example :
    All
      (IsStopItem {G = bindings} exact "MBTA")
      (in_a_row libraries in_memory String to_stops received)
in_a_row-IsStopItem_example =
    in_a_row-IsStopItem libraries exact-TimeLaws (λ v. omega arith) "MBTA" in_memory live
      (stage (feed_message_processor "MBTA")) (stage vehicle_position_processor)
      (stage (stop_event_processor "memory")) "memory" refl refl refl (typed in_memory-StoreLaws)
      (empty_store-Holds IsSeenSomewhere) received

-- Vehicles of two agencies with one id, at a stop each.
abbrev at_a : EventAttributes
at_a = record (seen "1" stopped_at "A") { agency_id = "MBTA" }

abbrev at_b : EventAttributes
at_b = record (seen "1" stopped_at "B") { agency_id = "MTA" }

do_stream-same_id_example :
    (StopEvents.do_stream in_memory libraries.unmarshal_position
      ((pos 1, pos 1, message (some (position at_a 0 0)))
        ∷ (pos 2, pos 2, message (some (position at_b 0 0)))
        ∷ [])
      empty_store).1
    ≡ some (event_at at_b "A" departure) ∷ some (event_at at_b "B" arrival) ∷ []
do_stream-same_id_example =
    do_stream-same_id in_memory live (typed in_memory-StoreLaws) libraries.unmarshal_position
      (position at_a 0 0) (position at_b 0 0) at_a at_b refl refl refl refl refl refl refl refl refl
      (pos 1) (pos 1) (pos 2) (pos 2) empty_store refl (unfold ◌+ℤ◌ in omega arith)
