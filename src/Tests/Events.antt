-- ===== src/Tests/Events.antt =====
-- Broadcasts to two subscribers, and instances of the theorems on the event server.
use tpm_go.Prelude.{◌≡◌, refl, String, some, List, [], ◌∷◌}
use tpm_go.Prelude.Int.{◌*ℤ◌, ◌+ℤ◌}
use tpm_go.Events.Stop.{arrival, departure}
use tpm_go.Events.Message.{Message, stop}
use tpm_go.EventMaps.{Value, text, get_event_map}
use tpm_go.EventServer.{EventServer, matches, subscribe, broadcast, broadcast_all}
use tpm_go.Tests.Base.{exact, stop_event}

abbrev format : Value → String
format (text s) = s
format _ = "?"

abbrev events : List Message
events =
    stop (some (stop_event arrival "v1" "A" 100))
    ∷ stop (some (stop_event departure "v1" "A" 130))
    ∷ []

abbrev server : EventServer
server = record {
  clients =
      (
        "s1",
        record {
          id = "s1";
          channel = [];
          subscription = ("route_id", "Red") ∷ ("stop_event_type", "ARRIVAL") ∷ [];
        },
      )
      ∷ ("s2", record { id = "s2"; channel = []; subscription = [] })
      ∷ [];
}

event_runs : Unit {0}
unfolding broadcast_all broadcast subscribe get_event_map matches ◌*ℤ◌ ◌+ℤ◌
event_runs = tt

two_subscribers :
    (subscribe "s2" [] (
      subscribe "s1"
        (("route_id", "Red") ∷ ("stop_event_type", "ARRIVAL") ∷ [])
        (record { clients = [] })))
    ≡ server
unfolding event_runs
two_subscribers = refl

one_arrival :
    (broadcast_all exact format events server).clients
    ≡ (
      "s1",
      record {
        id = "s1";
        channel = get_event_map exact (stop (some (stop_event arrival "v1" "A" 100))) ∷ [];
        subscription = ("route_id", "Red") ∷ ("stop_event_type", "ARRIVAL") ∷ [];
      },
    )
      ∷ (
        "s2",
        record {
          id = "s2";
          channel =
              get_event_map exact (stop (some (stop_event arrival "v1" "A" 100)))
              ∷ get_event_map exact (stop (some (stop_event departure "v1" "A" 130)))
              ∷ [];
          subscription = [];
        },
      )
      ∷ []
unfolding event_runs
one_arrival = refl
