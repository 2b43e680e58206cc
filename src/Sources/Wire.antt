-- ===== src/Sources/Wire.antt =====
-- Vehicle positions that one pipeline publishes to a channel of Redis, sinks/redis_sink.go, and
-- another receives from it, sources/redis_source.go, for its stop event processor.
use tpm_go.Prelude.{
  ℕ, ◌≡◌, All, refl, ap, map, Bool, true, false, String, Option, none, some, List, [], ◌∷◌, inl,
  inr, Option-cases, arith, if◌then◌else◌,
}
use tpm_go.Prelude.Int.{ℤ}
use tpm_go.Prelude.Text.{◌==◌, eq_refl}
use tpm_go.Events.VehiclePosition.{VehiclePositionEvent}
use tpm_go.Events.Message.{ProtoMessage, vehicle_position}
use tpm_go.StateStore.Interface.{StateStore}
use tpm_go.Processors.Element.{Element, bytes, message}
use tpm_go.Processors.StopEvents.{receive, process, do_stream}
use tpm_go.Sinks.Turns.{Turn, item}
use tpm_go.Sinks.Redis.{Publication, do_sink}
use tpm_go.Sources.Redis.{Case, payload, init}

abbrev pub Positions : Type 0
Positions = List VehiclePositionEvent

abbrev pub as_message : VehiclePositionEvent → ProtoMessage
as_message e = some (vehicle_position (some e))

-- The events as the sink takes them.
abbrev pub turns : Positions → List (Turn ProtoMessage)
turns [] = []
turns (e ∷ es) = item (as_message e) ∷ turns es

-- What a subscriber of a channel receives of what is published while it is subscribed, as the cases
-- of its loop.
pub record PubSub : Type 0 where
  pub received : String → List Publication → List Case

-- The payloads that are published to the channel.
abbrev pub payloads : String → List Publication → List (List ℕ)
payloads channel [] = []
payloads channel (p ∷ ps) =
    let rest = payloads channel ps in if p.channel == channel then p.payload ∷ rest else rest

-- The elements that are told to be picked, in their order.
abbrev pub pick : {A : Type 0} → List Bool → List A → List A
pick [] xs = []
pick (here ∷ told) [] = []
pick (true ∷ told) (x ∷ xs) = x ∷ pick told xs
pick (false ∷ told) (x ∷ xs) = pick told xs

-- Redis delivers a message at most once, and what it delivers in the order of the calls of Publish. A
-- message is lost where the call fails or the subscriber is not connected.
pub record PubSubLaws (P : PubSub) : Type 0 where
  pub at_most_once :
      (channel : String) (ps : List Publication)
      → (delivered : List Bool) × (P.received channel ps
          ≡ map payload (pick delivered (payloads channel ps)))

init-payloads : (bs : List (List ℕ)) → init (map payload bs) ≡ bs
unfolding init
init-payloads [] = refl
init-payloads (b ∷ bs) = ap (λ l. b ∷ l) (init-payloads bs)

-- What the source sends, as elements of the processor's channel, each with the instants of its
-- turn.
abbrev pub at_instants :
    {A : Type 0}
    → (A → Element VehiclePositionEvent)
    → List (ℤ × ℤ)
    → List A
    → List (ℤ × ℤ × Element VehiclePositionEvent)
at_instants f rs [] = []
at_instants f [] (x ∷ xs) = []
at_instants f ((t, u) ∷ rs) (x ∷ xs) = (t, u, f x) ∷ at_instants f rs xs

module _ (marshal : ProtoMessage → Option (List ℕ)) where
  abbrev pub keep : Option (List ℕ) → VehiclePositionEvent → Positions → Positions
  keep none e es = es
  keep (some b) e es = e ∷ es

  -- The events that are marshalled without an error.
  abbrev pub marshalled : Positions → Positions
  marshalled [] = []
  marshalled (e ∷ es) = keep (marshal (as_message e)) e (marshalled es)

  -- If the event is marshalled, it is read again from its bytes.
  abbrev pub RoundTrips : (List ℕ → Option VehiclePositionEvent) → VehiclePositionEvent → Type 0
  RoundTrips unmarshal e = (b : List ℕ) → marshal (as_message e) ≡ some b → unmarshal b ≡ some e

  -- The payloads of the events.
  abbrev published : String → Positions → List (List ℕ)
  published channel es = payloads channel (do_sink channel marshal (turns es))

  -- What the subscriber receives of the events, and what the source sends on.
  abbrev pub over_redis : PubSub → String → Positions → List Case
  over_redis P channel es = P.received channel (do_sink channel marshal (turns es))

  module _ (S : StateStore) (channel : String)
      (unmarshal : List ℕ → Option VehiclePositionEvent) where
    do_stream-bytes :
        (t u : ℤ) (b : List ℕ) (e : VehiclePositionEvent)
        (X Y : List (ℤ × ℤ × Element VehiclePositionEvent)) (s : S.State)
        → unmarshal b ≡ some e
        → ((s' : S.State) → do_stream S unmarshal X s' ≡ do_stream S unmarshal Y s')
        → do_stream S unmarshal ((t, u, bytes b) ∷ X) s
          ≡ do_stream S unmarshal ((t, u, message (some e)) ∷ Y) s
    unfolding do_stream receive
    do_stream-bytes t u b e X Y s read same =
        ground (arith, read, same (process S t u (some e) s).0)

    do_stream-picked :
        (instants : List (ℤ × ℤ)) (delivered : List Bool) (es : Positions) (s : S.State)
        → All (RoundTrips unmarshal) es
        → do_stream S unmarshal
            (at_instants bytes instants (pick delivered (published channel es)))
            s
          ≡ do_stream S unmarshal
              (at_instants (λ e. message (some e)) instants (pick delivered (marshalled es)))
              s
    unfolding do_sink
    do_stream-picked instants [] es s L = refl
    do_stream-picked instants (d ∷ told) [] s L = refl
    do_stream-picked instants (false ∷ told) (e ∷ es) s L =
        elim (Option-cases (marshal (as_message e))) [
          | inl lost ↦ rw lost (do_stream-picked instants (false ∷ told) es s L.1)
          | inr (b, sent) ↦ rw (sent, eq_refl channel) (do_stream-picked instants told es s L.1)
        ]
    do_stream-picked [] (true ∷ told) (e ∷ es) s L = elim (Option-cases (marshal (as_message e))) [
      | inl lost ↦ rw lost (do_stream-picked [] (true ∷ told) es s L.1)
      | inr (b, sent) ↦ rw (sent, eq_refl channel) refl
    ]
    do_stream-picked ((t, u) ∷ rs) (true ∷ told) (e ∷ es) s L =
        elim (Option-cases (marshal (as_message e))) [
          | inl lost ↦ rw lost (do_stream-picked ((t, u) ∷ rs) (true ∷ told) es s L.1)
          | inr (b, sent) ↦
              rw (sent, eq_refl channel)
                (do_stream-bytes t u b e (at_instants bytes rs (pick told (published channel es)))
                  (at_instants (λ x. message (some x)) rs (pick told (marshalled es))) s
                  (L.0 b sent) (λ s'. do_stream-picked rs told es s' L.1))
        ]

    -- Vehicle positions go from the Redis sink to a channel of Redis, which delivers a message at
    -- most once and in order, from there to the Redis source, and on to the stop event processor.
    -- If each position that is marshalled without an error is unmarshalled to what it was, then
    -- whatever the instants of its turns and its store, the processor sends the same stop events,
    -- and leaves the same store, as for some of these positions in a channel of its own: those
    -- whose messages were delivered.
    pub do_stream-over_redis :
        (P : PubSub) (instants : List (ℤ × ℤ)) (es : Positions) (s : S.State)
        → PubSubLaws P
        → All (RoundTrips unmarshal) es
        → (delivered : List Bool) × (over_redis P channel es
            ≡ map payload (pick delivered (payloads channel (do_sink channel marshal (turns es)))))
          × (do_stream S unmarshal (at_instants bytes instants (init (over_redis P channel es))) s
              ≡ do_stream S unmarshal
                  (at_instants (λ e. message (some e)) instants (pick delivered (marshalled es)))
                  s)
    do_stream-over_redis P instants es s laws L =
        let (delivered, same) = laws.at_most_once channel (do_sink channel marshal (turns es)) in
        (
          delivered,
          same,
          rw (same, init-payloads (pick delivered (published channel es)))
              (do_stream-picked instants delivered es s L),
        )
