-- ===== src/EventServer/Sse.antt =====
-- The handler `handleSSE` of event_server/event_server.go beside the broadcasts: any number of
-- requests, each a goroutine, interleaved in any order. A step is one operation under the lock, one
-- turn of a handler's loop, or a handler's start or end. `marshal` is `json.Marshal`; ids are those
-- that the uuid package has not given before. Go panics where a channel that is closed is closed
-- again or sent to, so the system keeps the ids of the channels that are closed.
use tpm_go.Prelude.{
  ℕ, ◌≡◌, Bool, true, false, ◌||◌, String, Option, none, some, List, [], ◌∷◌, ◌++◌, if◌then◌else◌,
}
use tpm_go.Prelude.Text.{◌==◌, ◌<>◌}
use tpm_go.Prelude.Maps.{lookup, has, insert}
use tpm_go.Events.Timestamp.{TimeOps}
use tpm_go.Events.Message.{Message}
use tpm_go.EventMaps.{Value, EventMap}
use tpm_go.EventServer.{Subscriber, EventServer, subscribe, unsubscribe, broadcast}

-- The parsed query: a key has one value or more.
pub record Request : Type 0 where
  pub path : String
  pub query : List (String × String × List String)
  -- r.Context() is not nil
  pub has_context : Bool
  -- the writer is an http.Flusher
  pub flushes : Bool

-- What is written to a request's writer.
pub record Response : Type 0 where
  pub status : ℕ
  pub body : List String

pub record System : Type 0 where
  pub server : EventServer
  pub closed : List String
  pub responses : String → Response

abbrev pub is_in : String → List String → Bool
is_in k [] = false
is_in k (j ∷ js) = (k == j) || is_in k js

abbrev pub respond : String → Response → (String → Response) → String → Response
respond id r responses k = if k == id then r else responses k

-- for k, v := range r.URL.Query() { subscription[k] = v[0] }
unfoldable pub first_values :
    List (String × String × List String) → List (String × String) → List (String × String)
first_values [] subscription = subscription
first_values ((k, v, more) ∷ rest) subscription = first_values rest (insert k v subscription)

-- The two tests after `Subscribe`: the message of http.Error, or none.
unfoldable pub refusal : Request → Option String
refusal r =
    if r.has_context
    then (if r.flushes then none else some "Streaming unsupported!")
    else some "Invalid request context"

-- The deferred `Unsubscribe`, which closes the channel.
unfoldable pub leave : String → System → System
leave id x = record x { server = unsubscribe id x.server; closed = id ∷ x.closed }

-- The handler up to its loop.
unfoldable pub start : String → Option String → System → System
unfolding leave
start id none x = record x {
  responses = respond id (record { status = 200; body = [] }) x.responses;
}
start id (some message) x =
    leave id (record x {
      responses = respond id (record { status = 500; body = message ∷ [] }) x.responses;
    })

unfoldable pub handle_sse : String → Request → System → System
unfolding start refusal first_values
handle_sse id r x =
    start id (refusal r) (record x { server = subscribe id (first_values r.query []) x.server })

-- The handler that `NewEventServer` gives to the HTTP server.
unfoldable pub serve_http : String → String → Request → System → System
unfolding handle_sse
serve_http path id r x = if r.path == path then handle_sse id r x else x

pub data Action : Type 0 where
  connect : String → Request → Action
  publish : Message → Action
  serve disconnect : String → Action

module _ (marshal : EventMap → Option String) where
  -- What is written for a map from the channel: nothing where it is not serialized.
  unfoldable pub frame : Option String → List String
  frame none = []
  frame (some json) = ("data: " <> json <> "\n\n") ∷ []

  unfoldable pub frames : List EventMap → List String
  unfolding frame
  frames [] = []
  frames (m ∷ ms) = frame (marshal m) ++ frames ms

  -- The turn in which the loop takes `m` from the channel of `c`, of which `rest` is left.
  unfoldable pub take_event : String → Subscriber → EventMap → List EventMap → System → System
  unfolding frame
  take_event id c m rest x =
      let response = x.responses id in
      record x {
        server = record { clients = insert id (record c { channel = rest }) x.server.clients };
        responses =
            respond id (record response { body = response.body ++ frame (marshal m) }) x.responses;
      }

  module _ (T : TimeOps) (format : Value → String) (path : String) where
    pub data Step (x : System) : Action → System → Type 0 where
      connects :
          (id : String) (r : Request)
          → has id x.server.clients ≡ false
          → is_in id x.closed ≡ false
          → Step x (connect id r) (serve_http path id r x)
      publishes :
          (e : Message) → Step x (publish e) (record x { server = broadcast T format e x.server })
      serves :
          (id : String) (c : Subscriber) (m : EventMap) (rest : List EventMap)
          → lookup id x.server.clients ≡ some c
          → c.channel ≡ m ∷ rest
          → Step x (serve id) (take_event id c m rest x)
      -- notify: the request's context is done
      disconnects :
          (id : String) → has id x.server.clients ≡ true → Step x (disconnect id) (leave id x)

    -- A run, with its actions from the first on.
    pub data Run : System → List Action → System → Type 0 where
      stay : {x : System} → Run x [] x
      then_run :
          {x y z : System} {a : Action} {rest : List Action}
          → Step x a y
          → Run y rest z
          → Run x (a ∷ rest) z
