-- ===== src/Tests/Wire.antt =====
-- Vehicle positions over Redis, and what the sources and sinks pass on.
use tpm_go.Prelude.{
  ℕ, ◌≡◌, refl, String, Option, none, some, List, [], ◌∷◌, if◌then◌else◌, arith, map, Bool, true,
  false, ap, sym,
}
use tpm_go.Prelude.Int.{ℤ, pos, ◌+ℤ◌}
use tpm_go.Prelude.Text.{◌==◌}
use tpm_go.Events.Attributes.{stopped_at, in_transit_to}
use tpm_go.Events.VehiclePosition
use tpm_go.Events.VehiclePosition.{VehiclePositionEvent}
use tpm_go.Events.Attributes
use tpm_go.Events.Stop.{departure}
use tpm_go.Events.Message.{ProtoMessage, vehicle_position}
use tpm_go.StateStore.InMemory.{get, set}
use tpm_go.StateStore.InMemory.Laws.{in_memory}
use tpm_go.Processors.Element.{bytes, message}
use tpm_go.Processors.StopEvents.{
  make_stop_event, transitions, compare_with, previous_attributes, receive, process, do_stream,
}
use tpm_go.Processors.StopEvents.Journey.{position}
use tpm_go.Sinks.Redis.{do_sink}
use tpm_go.Sources.Redis
use tpm_go.Sources.Redis.{Case, payload, init}
use tpm_go.Sinks.Redis.{Publication}
use tpm_go.Sources.Wire.{
  PubSub, PubSubLaws, payloads, pick, turns, Positions, at_instants, over_redis,
  do_stream-over_redis,
}
use tpm_go.Tests.Base.{empty_store, seen}

abbrev at_a : VehiclePositionEvent
at_a = position (seen "v" stopped_at "A") 0 0

abbrev to_b : VehiclePositionEvent
to_b = position (seen "v" in_transit_to "B") 0 0

-- The two positions have a code each, and what is not for a stop has none.
abbrev code : String → Option (List ℕ)
code stop = if stop == "A" then some [] else if stop == "B" then some (2 ∷ []) else none

abbrev marshal : ProtoMessage → Option (List ℕ)
marshal (some (vehicle_position e)) =
    code (Attributes.get_stop_id (VehiclePosition.get_attributes e))
marshal _ = none

abbrev unmarshal : List ℕ → Option VehiclePositionEvent
unmarshal [] = some at_a
unmarshal (n ∷ b) = some to_b

abbrev nowhere : VehiclePositionEvent
nowhere = position (seen "v" in_transit_to "") 0 0

abbrev sent : Positions
sent = at_a ∷ at_a ∷ nowhere ∷ to_b ∷ []

abbrev instants : List (ℤ × ℤ)
instants = (pos 1, pos 1) ∷ (pos 2, pos 2) ∷ []

wire : Unit {0}
unfolding do_sink Redis.init make_stop_event transitions compare_with previous_attributes receive
    process do_stream get set ◌+ℤ◌
wire = tt

-- A subscriber that is connected too late for the first message of its channel.
abbrev from_second : String → List Publication → List Case
from_second channel ps = elim (payloads channel ps) [ [] ↦ [] | b ∷ bs ↦ map payload bs ]

abbrev connected_late : PubSub
connected_late = record { received = from_second }

all_true : {A : Type 0} → List A → List Bool
all_true [] = []
all_true (x ∷ xs) = true ∷ all_true xs

pick-all_true : (bs : List (List ℕ)) → pick (all_true bs) bs ≡ bs
unfolding all_true
pick-all_true [] = refl
pick-all_true (b ∷ bs) = ap (λ l. b ∷ l) (pick-all_true bs)

without_first :
    (bs : List (List ℕ))
    → (delivered : List Bool) × (elim bs [ [] ↦ [] | b ∷ rest ↦ map payload rest ]
        ≡ map payload (pick delivered bs))
without_first [] = ([], refl)
without_first (b ∷ bs) = (false ∷ all_true bs, ap (map payload) (sym (pick-all_true bs)))

connected_late-PubSubLaws : PubSubLaws connected_late
connected_late-PubSubLaws = record {
  at_most_once = λ channel ps. without_first (payloads channel ps);
}

do_stream-over_redis_example :
    (delivered : List Bool) × (over_redis marshal connected_late "positions" sent
      ≡ map payload
          (pick delivered (payloads "positions" (do_sink "positions" marshal (turns sent)))))
    × (do_stream in_memory unmarshal
          (at_instants bytes instants (init (over_redis marshal connected_late "positions" sent)))
          empty_store
        ≡ do_stream in_memory unmarshal
            (at_instants
              (λ e. message (some e))
              instants
              (pick delivered (at_a ∷ at_a ∷ to_b ∷ [])))
            empty_store)
do_stream-over_redis_example =
    do_stream-over_redis marshal in_memory "positions" unmarshal connected_late instants sent
      empty_store connected_late-PubSubLaws
      (λ b h. ground arith, (λ b h. ground arith, (λ b h. ground arith, (λ b h. ground arith, tt))))

-- The first of the two messages that the vehicle is at A is lost, and the second one is enough.
one_departure :
    (do_stream in_memory unmarshal
      (at_instants bytes instants (init (over_redis marshal connected_late "positions" sent)))
      empty_store).1
    ≡ make_stop_event (some to_b) "A" departure ∷ []
unfolding wire
one_departure = refl
