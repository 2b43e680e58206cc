-- ===== src/Processors/VehiclePositions/Sound.antt =====
-- From the bytes of an agency's feed to the vehicle positions: the feed message processor and the
-- vehicle position processor in a row.
use tpm_go.Prelude.{
  ℕ, ◌≡◌, ◌∙◌, refl, false, Option, none, some, String, List, [], ◌∷◌, All, All-append, arith,
  Bool-cases, inl, inr,
}
use tpm_go.Prelude.Int.{◌*ℤ◌}
use tpm_go.Prelude.Text.{◌==◌}
use tpm_go.Events.Timestamp.{TimeOps, TimeLaws}
use tpm_go.Events.Timestamp.Elapsed.{IsInEra, at_second}
use tpm_go.Events.Attributes
use tpm_go.Events.Attributes.{EventAttributes}
use tpm_go.Events.VehiclePosition.{VehiclePositionEvent}
use tpm_go.Events.Feed.{Gtfs, FeedMessageEvent}
use tpm_go.Processors.Element.{Element, message}
use tpm_go.Processors.FeedMessages
use tpm_go.Processors.VehiclePositions.{
  int64_of, unix, position_event, send_vehicle, send_entities, send_feed, do_stream,
}

-- A position of the agency: at a named stop, at a whole second of the era.
abbrev pub IsPosition : TimeOps → String → VehiclePositionEvent → Type 0
IsPosition T agency vp =
    (Attributes.get_agency_id vp.attributes ≡ agency)
    × ((Attributes.get_stop_id vp.attributes == "") ≡ false)
    × (n : ℕ) × (T.as_time (Attributes.get_timestamp vp.attributes) ≡ at_second n)
    × IsInEra n

-- The elements in which the feed message processor's output reaches the next one.
abbrev pub messages : {G : Gtfs} → List (FeedMessageEvent G) → List (Element (FeedMessageEvent G))
messages [] = []
messages (e ∷ es) = message (some e) ∷ messages es

module _ (T : TimeOps) (K : TimeLaws T) (G : Gtfs) (widen : ℕ → ℕ)
    (in_era : (v : Option G.VehiclePosition) → IsInEra (G.get_timestamp v)) where
  unix-int64_of : (n : ℕ) → IsInEra n → unix (int64_of n) ≡ at_second n
  unfolding ◌*ℤ◌
  unix-int64_of n h = ground arith

  position_event-IsPosition :
      (agency : String) (v : Option G.VehiclePosition)
      → (G.get_stop_id v == "") ≡ false
      → IsPosition T agency (position_event T G widen agency v)
  unfolding position_event
  position_event-IsPosition agency v named = (
    refl,
    named,
    G.get_timestamp v,
    K.as_time-new_timestamp (unix (int64_of (G.get_timestamp v)))
        ∙ unix-int64_of (G.get_timestamp v) (in_era v),
    in_era v,
  )

  send_vehicle-IsPosition :
      (agency : String) (v : Option G.VehiclePosition)
      → All (IsPosition T agency) (send_vehicle T G widen agency v)
  unfolding send_vehicle
  send_vehicle-IsPosition agency none = tt
  send_vehicle-IsPosition agency (some v) = elim (Bool-cases (G.get_stop_id (some v) == "")) [
    | inl unnamed ↦ rw unnamed tt
    | inr named ↦ rw named (position_event-IsPosition agency (some v) named, tt)
  ]

  send_entities-IsPosition :
      (agency : String) (entities : List (Option G.FeedEntity))
      → All (IsPosition T agency) (send_entities T G widen agency entities)
  unfolding send_entities
  send_entities-IsPosition agency [] = tt
  send_entities-IsPosition agency (entity ∷ rest) =
      All-append (IsPosition T agency) (send_vehicle T G widen agency (G.get_vehicle entity))
        (send_entities T G widen agency rest)
        (send_vehicle-IsPosition agency (G.get_vehicle entity))
        (send_entities-IsPosition agency rest)

  pub send_feed-IsPosition :
      (agency : String) (feed : Option G.FeedMessage)
      → All
          (IsPosition T agency)
          (send_feed T G widen (some (record { agency_id = agency; feed_message = feed })))
  unfolding send_feed
  send_feed-IsPosition agency none = tt
  send_feed-IsPosition agency (some feed) =
      send_entities-IsPosition agency (G.get_entity (some feed))

  module _ (agency : String) (unmarshal : List ℕ → Option G.FeedMessage) where
    send-IsPosition :
        (o : Option (Option G.FeedMessage)) (later : List (FeedMessageEvent G))
        → All (IsPosition T agency) (do_stream T G widen (messages later))
        → All
            (IsPosition T agency)
            (do_stream T G widen (messages (FeedMessages.send G agency unmarshal o later)))
    unfolding do_stream FeedMessages.send
    send-IsPosition none later h = h
    send-IsPosition (some feed) later h =
        All-append (IsPosition T agency)
          (send_feed T G widen (some (record { agency_id = agency; feed_message = feed })))
          (do_stream T G widen (messages later)) (send_feed-IsPosition agency feed) h

    -- Where every vehicle's timestamp is before the year 2038: each position that is sent, for any
    -- elements that reach the feed message processor of an agency, has the agency's id, a stop
    -- that is not empty and a timestamp of whole seconds.
    do_stream-IsPosition :
        (es : List (Element G.FeedMessage))
        → All
            (IsPosition T agency)
            (do_stream T G widen (messages (FeedMessages.do_stream G agency unmarshal es)))
    unfolding do_stream FeedMessages.do_stream
    do_stream-IsPosition [] = tt
    do_stream-IsPosition (e ∷ es) =
        send-IsPosition (FeedMessages.receive G agency unmarshal e)
          (FeedMessages.do_stream G agency unmarshal es) (do_stream-IsPosition es)
