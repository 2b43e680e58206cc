-- ===== src/EventServer/Runs.antt =====
-- Runs of the handlers of event_server/event_server.go, seen from one request.
pub mod Served
pub mod Passed
pub mod Written
use mathlib.Core.List.{append_assoc, append-nil, Sublistᴰ}
use tpm_go.Prelude.{
  ℕ, zero, suc, ◌≡◌, ◌≤◌, ◌<◌, ◌⊎◌, ◌+◌, ◌∙◌, refl, sym, ap, true, false, String, Option, none,
  some, List, [], ◌∷◌, ◌++◌, take, drop, take-append, inl, inr, arith, Bool-cases, length,
  length-append, if◌then◌else◌, ltb,
}
use tpm_go.Prelude.Text.{◌==◌, eq_iff}
use tpm_go.Prelude.Maps.{lookup, lookup-insert, has-lookup}
use tpm_go.Events.Timestamp.{TimeOps}
use tpm_go.Events.Message.{Message}
use tpm_go.EventMaps.{Value, EventMap, get_event_map}
use tpm_go.EventServer.{
  Subscriber, capacity, matches, offer, send_to, remove, new_subscriber, subscribe, unsubscribe,
  send_all, broadcast,
}
use tpm_go.EventServer.Delivery.{matching}
use tpm_go.EventServer.Sse.{
  Request, System, first_values, refusal, leave, start, handle_sse, frame, frames, take_event,
  Action, connect, publish, serve, disconnect, connects, publishes, serves, disconnects, Run, stay,
  then_run,
}

-- The request `id` is served: its channel, and what is written.
pub record IsServed (id : String) (subscription : List (String × String)) (waiting : List EventMap)
    (body : List String) (x : System) : Type 0 where
  pub client : Subscriber
  pub found : lookup id x.server.clients ≡ some client
  pub subscribed : client.subscription ≡ subscription
  pub waits : client.channel ≡ waiting
  pub written : (x.responses id).body ≡ body

-- The request is not ended.
abbrev pub IsKept : String → List Action → Type 0
IsKept id [] = Unit
IsKept id (disconnect j ∷ rest) = ((id == j) ≡ false) × IsKept id rest
IsKept id (_ ∷ rest) = IsKept id rest

-- The turns of the request's handler.
abbrev pub turns : String → List Action → ℕ
turns id [] = 0
turns id (serve j ∷ rest) = let n = turns id rest in if id == j then suc n else n
turns id (_ ∷ rest) = turns id rest

-- The events that are broadcast.
abbrev pub published : List Action → List Message
published [] = []
published (publish e ∷ rest) = e ∷ published rest
published (_ ∷ rest) = published rest

-- What waits for a subscription after an event.
abbrev pub offered :
    (Value → String) → List (String × String) → EventMap → List EventMap → List EventMap
offered format subscription m waiting =
    if matches format m subscription
    then (if ltb (length waiting) capacity then waiting ++ m ∷ [] else waiting)
    else waiting
