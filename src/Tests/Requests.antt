-- ===== src/Tests/Requests.antt =====
-- Two requests to the event server, and instances of the theorems on its runs.
use mathlib.Core.List.{Sublistᴰ}
use tpm_go.Prelude.{
  ◌≡◌, refl, true, false, String, Option, none, some, List, [], ◌∷◌, ◌++◌, arith, take, drop,
}
use tpm_go.Prelude.Text.{◌<>◌}
use tpm_go.Events.Stop.{arrival}
use tpm_go.Events.Message.{Message, stop}
use tpm_go.EventMaps.{Value, EventMap, text, get_event_map}
use tpm_go.EventServer.{Subscriber, matches, broadcast, subscribe, unsubscribe}
use tpm_go.EventServer.Delivery.{matching}
use tpm_go.EventServer.Sse.{
  Request, Response, System, Action, connect, publish, serve, disconnect, serve_http, first_values,
  frames, take_event, leave, Run, connects, publishes, serves, disconnects, stay, then_run,
}
use tpm_go.EventServer.Safe.{IsSafe, no_clients, reached-IsSafe}
use tpm_go.EventServer.Runs.{IsServed}
use tpm_go.EventServer.Runs.Written.{body-waiting, body-matching}
use tpm_go.Tests.Base.{exact, stop_event}

requests : Unit {0}
unfolding serve_http first_values take_event frames leave broadcast get_event_map matches subscribe
    unsubscribe ◌<>◌
requests = tt

abbrev format : Value → String
format (text s) = s
format _ = "?"

-- Of a map with more than one entry, no JSON.
abbrev marshal : EventMap → Option String
marshal ((k, text v) ∷ []) = some v
marshal _ = none

abbrev quiet : String → Response
quiet k = record { status = 200; body = [] }

abbrev hello : EventMap
hello = ("k", text "{}") ∷ []

-- A subscriber with one map in its channel.
abbrev waiting : Subscriber
waiting = record { id = "s1"; channel = hello ∷ []; subscription = [] }

abbrev x₀ : System
x₀ = record { server = record { clients = ("s1", waiting) ∷ [] }; closed = []; responses = quiet }

abbrev request : Request
request = record {
  path = "/events";
  query = ("route_id", "Red", []) ∷ [];
  has_context = true;
  flushes = true;
}

abbrev arrived : Message
arrived = stop (some (stop_event arrival "v1" "A" 100))

abbrev actions : List Action
actions = connect "s2" request ∷ publish arrived ∷ serve "s1" ∷ disconnect "s2" ∷ []

abbrev x₁ : System
x₁ = serve_http "/events" "s2" request x₀

abbrev x₂ : System
x₂ = record x₁ { server = broadcast exact format arrived x₁.server }

abbrev after : Subscriber
after = record waiting { channel = hello ∷ get_event_map exact arrived ∷ [] }

abbrev x₃ : System
x₃ = take_event marshal "s1" after hello (get_event_map exact arrived ∷ []) x₂

abbrev x₄ : System
x₄ = leave "s2" x₃

run : Run marshal exact format "/events" x₀ actions x₄
unfolding requests
run = then_run (connects "s2" request refl refl) (
    then_run (publishes arrived) (
      then_run (serves "s1" after hello (get_event_map exact arrived ∷ []) refl refl)
        (then_run (disconnects "s2" refl) stay)))

served : IsServed "s1" [] (hello ∷ []) [] x₀
served = record { client = waiting; found = refl; subscribed = refl; waits = refl; written = refl }

body-waiting_example :
    (later : List EventMap) × Sublistᴰ later (matching exact format [] (arrived ∷ []))
    × ((x₄.responses "s1").body ≡ [] ++ (frames marshal (hello ∷ []) ++ frames marshal later))
body-waiting_example =
    body-waiting marshal exact format "/events" "s1" [] actions (hello ∷ []) [] (refl, tt) served
      run (omega arith)

body-matching_example :
    let all = hello ∷ matching exact format [] (arrived ∷ []) in
    IsServed "s1" [] (drop 1 all) ([] ++ frames marshal (take 1 all)) x₄
body-matching_example =
    body-matching marshal exact format "/events" "s1" [] actions (hello ∷ []) [] (refl, tt) served
      run (unfold matches in omega arith)

-- The arrival waits, and the first map is written.
one_frame : (x₄.responses "s1").body ≡ "data: {}\n\n" ∷ []
unfolding requests
one_frame = refl

abbrev y₁ : System
y₁ = serve_http "/events" "s1" request (no_clients quiet)

-- A request whose writer does not flush is refused, and its channel closed.
abbrev no_flusher : Request
no_flusher = record request { flushes = false }

abbrev y₂ : System
y₂ = serve_http "/events" "s2" no_flusher y₁

reached-IsSafe_example : IsSafe marshal exact format "/events" (leave "s1" y₂)
unfolding requests
reached-IsSafe_example =
    reached-IsSafe marshal exact format "/events" {y = leave "s1" y₂}
      {rest = connect "s1" request ∷ connect "s2" no_flusher ∷ disconnect "s1" ∷ []} quiet
      (then_run (connects "s1" request refl refl)
        (then_run (connects "s2" no_flusher refl refl) (then_run (disconnects "s1" refl) stay)))

both_closed : (leave "s1" y₂).closed ≡ "s1" ∷ "s2" ∷ []
unfolding requests
both_closed = refl

refused : ((leave "s1" y₂).responses "s2").status ≡ 500
unfolding requests
refused = refl

-- A request for another path is not subscribed.
other_path : serve_http "/events" "s3" (record request { path = "/health" }) x₀ ≡ x₀
unfolding serve_http
other_path = refl
