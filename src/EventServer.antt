-- ===== src/EventServer.antt =====
-- event_server/event_server.go: the subscribers and what `Broadcast` puts into their channels. The
-- lock makes each operation one step. `format` is `fmt.Sprintf("%v", …)` of a value, and ids come
-- from the uuid package. A subscriber is in the map until `Unsubscribe` closes its channel.
pub mod Delivery
pub mod Sse
pub mod Safe
pub mod Runs
use tpm_go.Prelude.{
  ℕ, Bool, true, false, ◌&&◌, String, Option, none, some, List, [], ◌∷◌, ◌++◌, length, ltb,
  if◌then◌else◌,
}
use tpm_go.Prelude.Text.{◌==◌}
use tpm_go.Prelude.Maps.{lookup, insert}
use tpm_go.Events.Timestamp.{TimeOps}
use tpm_go.Events.Message.{Message}
use tpm_go.EventMaps.{Value, EventMap, get_event_map}

-- The channel is what it holds.
pub record Subscriber : Type 0 where
  pub id : String
  pub channel : List EventMap
  pub subscription : List (String × String)

pub record EventServer : Type 0 where
  pub clients : List (String × Subscriber)

abbrev pub capacity : ℕ
capacity = 16

abbrev pub new_subscriber : String → List (String × String) → Subscriber
new_subscriber id subscription = record { id = id; channel = []; subscription = subscription }

unfoldable pub subscribe : String → List (String × String) → EventServer → EventServer
subscribe id subscription es = record {
  clients = insert id (new_subscriber id subscription) es.clients;
}

-- delete(m, key)
abbrev pub remove : String → List (String × Subscriber) → List (String × Subscriber)
remove k [] = []
remove k ((j, c) ∷ rest) = if k == j then rest else (j, c) ∷ remove k rest

unfoldable pub unsubscribe : String → EventServer → EventServer
unsubscribe id es = record { clients = remove id es.clients }

-- `eventVal, exists := eventMap[k]`, and the comparison of the formatted value
abbrev pub same_value : (Value → String) → String → Option Value → Bool
same_value format v none = false
same_value format v (some x) = v == format x

unfoldable pub matches : (Value → String) → EventMap → List (String × String) → Bool
matches format event_map [] = true
matches format event_map ((k, v) ∷ rest) =
    same_value format v (lookup k event_map) && matches format event_map rest

-- The `select` with a default: the event is dropped where the channel is full.
unfoldable pub offer : EventMap → Subscriber → Subscriber
offer event_map c =
    if ltb (length c.channel) capacity
    then record c { channel = c.channel ++ event_map ∷ [] }
    else c

unfoldable pub send_to : (Value → String) → EventMap → Subscriber → Subscriber
unfolding matches offer
send_to format event_map c =
    if matches format event_map c.subscription then offer event_map c else c

-- The loop over the clients.
unfoldable pub send_all :
    (Value → String) → EventMap → List (String × Subscriber) → List (String × Subscriber)
unfolding send_to
send_all format event_map [] = []
send_all format event_map ((id, c) ∷ rest) =
    (id, send_to format event_map c) ∷ send_all format event_map rest

module _ (T : TimeOps) (format : Value → String) where
  unfoldable pub broadcast : Message → EventServer → EventServer
  unfolding send_all get_event_map
  broadcast event es = record { clients = send_all format (get_event_map T event) es.clients }

  unfoldable pub broadcast_all : List Message → EventServer → EventServer
  broadcast_all [] es = es
  broadcast_all (e ∷ rest) es = broadcast_all rest (broadcast e es)
