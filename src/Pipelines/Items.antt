-- ===== src/Pipelines/Items.antt =====
-- What goes through the channels of the pipelines, of type `any`, and how the processors see it:
-- the type switches and assertions of their `doStream`.
use tpm_go.Prelude.{ℕ, Option, List, [], ◌∷◌}
use tpm_go.Prelude.Int.{ℤ}
use tpm_go.Events.Feed.{Gtfs, FeedMessageEvent}
use tpm_go.Events.VehiclePosition.{VehiclePositionEvent}
use tpm_go.Events.Stop.{StopEvent}
use tpm_go.Events.Message.{Message, vehicle_position, stop}
use tpm_go.Processors.Element.{Element, bytes, message, other}

module _ (G : Gtfs) where
  -- A `[]uint8`, a pointer to a message of one of the types, or anything else.
  pub data Item : Type 0 where
    raw : List ℕ → Item
    gtfs_feed : Option G.FeedMessage → Item
    feed_event : Option (FeedMessageEvent G) → Item
    event : Message → Item
    unknown : Item

  -- An item with the two instants of the turn of the processor that reads it.
  abbrev pub Timed : Type 0 → Type 0
  Timed A = ℤ × ℤ × A

module _ {G : Gtfs} where
  -- feed_message_event_processor.go
  unfoldable pub as_gtfs_feed : Item G → Element G.FeedMessage
  as_gtfs_feed (raw b) = bytes b
  as_gtfs_feed (gtfs_feed feed) = message feed
  as_gtfs_feed _ = other

  -- vehicle_position_event_processor.go
  unfoldable pub as_feed_event : Item G → Element (FeedMessageEvent G)
  as_feed_event (feed_event e) = message e
  as_feed_event _ = other

  -- stop_event.go
  unfoldable pub as_position : Item G → Element VehiclePositionEvent
  as_position (raw b) = bytes b
  as_position (event (vehicle_position vp)) = message vp
  as_position _ = other

  -- The processors of the derived events.
  unfoldable pub as_stop : Item G → Element StopEvent
  as_stop (event (stop e)) = message e
  as_stop _ = other

  unfoldable pub seen_as : {A : Type 0} → (Item G → A) → List (ℤ × ℤ × Item G) → List (ℤ × ℤ × A)
  seen_as f [] = []
  seen_as f ((t, u, x) ∷ xs) = (t, u, f x) ∷ seen_as f xs

-- The elements of a processor that does not read the clock.
unfoldable pub without_instants : {A : Type 0} → List (ℤ × ℤ × A) → List A
without_instants [] = []
without_instants ((t, u, x) ∷ xs) = x ∷ without_instants xs
