-- ===== src/Processors/FeedMessages.antt =====
-- processors/transit/feed_message_events/feed_message_event_processor.go.
use tpm_go.Prelude.{ℕ, String, Option, none, some, List, [], ◌∷◌}
use tpm_go.Events.Feed.{Gtfs, FeedMessageEvent}
use tpm_go.Processors.Element.{Element, bytes, message, other}

module _ (G : Gtfs) (agency_id : String) (unmarshal : List ℕ → Option G.FeedMessage) where
  -- The type switch of `doStream`: the feed message to wrap, or none where the loop goes on.
  -- `unmarshal` is `proto.Unmarshal` into a new message: `none` where it fails.
  unfoldable pub receive : Element G.FeedMessage → Option (Option G.FeedMessage)
  receive (bytes b) = elim (unmarshal b) [ none ↦ none | some msg ↦ some (some msg) ]
  receive (message feed) = some feed
  receive other = none

  -- What is sent for it, before what is sent later.
  unfoldable pub send :
      Option (Option G.FeedMessage) → List (FeedMessageEvent G) → List (FeedMessageEvent G)
  send none later = later
  send (some feed) later = record { agency_id = agency_id; feed_message = feed } ∷ later

  unfoldable pub do_stream : List (Element G.FeedMessage) → List (FeedMessageEvent G)
  unfolding receive send
  do_stream [] = []
  do_stream (event ∷ rest) = send (receive event) (do_stream rest)
