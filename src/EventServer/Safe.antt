-- ===== src/EventServer/Safe.antt =====
-- What holds in every state that the handlers and broadcasts of event_server/event_server.go reach.
use tpm_go.Prelude.{
  ◌≡◌, ◌≤◌, refl, true, false, ◌&&◌, not, String, Option, none, some, List, [], ◌∷◌, All, inl, inr,
  arith, Bool-cases, length,
}
use tpm_go.Prelude.Text.{◌==◌, eq_iff, eq_refl}
use tpm_go.Prelude.Maps.{lookup, has, insert, has-insert, All-insert}
use tpm_go.Events.Timestamp.{TimeOps}
use tpm_go.EventMaps.{Value, EventMap, get_event_map}
use tpm_go.EventServer.{
  Subscriber, capacity, remove, new_subscriber, subscribe, unsubscribe, send_all, broadcast,
}
use tpm_go.EventServer.Delivery.{IsBounded, send_all-IsBounded}
use tpm_go.EventServer.Sse.{
  Request, Response, System, is_in, first_values, refusal, leave, start, handle_sse, serve_http,
  take_event, Action, Step, connects, publishes, serves, disconnects, Run, stay, then_run,
}

abbrev pub Clients : Type 0
Clients = List (String × Subscriber)

abbrev pub AreDistinct : Clients → Type 0
AreDistinct [] = Unit
AreDistinct ((k, c) ∷ cs) = (has k cs ≡ false) × AreDistinct cs

AreDistinct-insert :
    (k : String) (c : Subscriber) (cs : Clients) → AreDistinct cs → AreDistinct (insert k c cs)
AreDistinct-insert k c [] h = (refl, tt)
AreDistinct-insert k c ((j, d) ∷ cs) h = elim (Bool-cases (k == j)) [
  | inl e ↦ rw e (ground (arith, eq_iff k j), h.1)
  | inr e ↦
      rw e
        (ground (arith, eq_iff k j, eq_iff j k, has-insert j k c cs), AreDistinct-insert k c cs h.1)
]

has-remove :
    (k j : String) (cs : Clients)
    → AreDistinct cs
    → has k (remove j cs) ≡ (has k cs && not (k == j))
has-remove k j [] h = refl
has-remove k j ((i, c) ∷ cs) h =
    ground (arith, eq_iff j i, eq_iff k i, eq_iff k j, has-remove k j cs h.1)

AreDistinct-remove : (k : String) (cs : Clients) → AreDistinct cs → AreDistinct (remove k cs)
AreDistinct-remove k [] h = tt
AreDistinct-remove k ((j, c) ∷ cs) h = elim (Bool-cases (k == j)) [
  | inl e ↦ rw e h.1
  | inr e ↦ rw e (ground (arith, has-remove j k cs h.1), AreDistinct-remove k cs h.1)
]

All-remove {κ} :
    (P : String × Subscriber → Type κ) (k : String) (cs : Clients) → All P cs → All P (remove k cs)
All-remove P k [] h = tt
All-remove P k ((j, c) ∷ cs) h = elim (Bool-cases (k == j)) [
  | inl e ↦ rw e h.1
  | inr e ↦ rw e (h.0, All-remove P k cs h.1)
]

has-send_all :
    (format : Value → String) (m : EventMap) (k : String) (cs : Clients)
    → has k (send_all format m cs) ≡ has k cs
unfolding send_all
has-send_all format m k [] = refl
has-send_all format m k ((j, c) ∷ cs) = rw (has-send_all format m k cs) refl

AreDistinct-send_all :
    (format : Value → String) (m : EventMap) (cs : Clients)
    → AreDistinct cs
    → AreDistinct (send_all format m cs)
unfolding send_all
AreDistinct-send_all format m [] h = tt
AreDistinct-send_all format m ((j, c) ∷ cs) h =
    (rw (has-send_all format m j cs) h.0, AreDistinct-send_all format m cs h.1)

abbrev pub IsOnce : List String → Type 0
IsOnce [] = Unit
IsOnce (k ∷ ks) = (is_in k ks ≡ false) × IsOnce ks

abbrev pub no_clients : (String → Response) → System
no_clients responses = record {
  server = record { clients = [] };
  closed = [];
  responses = responses;
}

module _ (marshal : EventMap → Option String) (T : TimeOps) (format : Value → String)
    (path : String) where
  -- No channel was closed twice, and those in the map, which a broadcast may send to, are not
  -- closed, have ids of their own, and are not over their capacity.
  pub record IsSafe (x : System) : Type 0 where
    pub unclosed : (k : String) → has k x.server.clients ≡ true → is_in k x.closed ≡ false
    pub once : IsOnce x.closed
    pub distinct : AreDistinct x.server.clients
    pub bounded : All (IsBounded T format) x.server.clients

  lookup-IsBounded :
      (k : String) (c : Subscriber) (cs : Clients)
      → All (IsBounded T format) cs
      → lookup k cs ≡ some c
      → (length c.channel ≤ capacity) × (has k cs ≡ true)
  lookup-IsBounded k c [] h found = cc
  lookup-IsBounded k c ((j, d) ∷ cs) h found = elim (Bool-cases (k == j)) [
    | inl e ↦ let same : some d ≡ some c = rw e at found in (ground (arith, h.0, same), rw e refl)
    | inr e ↦
        let (le, here) = lookup-IsBounded k c cs h.1 (rw e at found) in (le, rw (e, here) refl)
  ]

  leave-IsSafe :
      (id : String) (x : System) → has id x.server.clients ≡ true → IsSafe x → IsSafe (leave id x)
  unfolding leave unsubscribe
  leave-IsSafe id x here h = record {
    once = (h.unclosed id here, h.once);
    unclosed = λ k there. ground (arith, has-remove k id x.server.clients h.distinct, h.unclosed k);
    distinct = AreDistinct-remove id x.server.clients h.distinct;
    bounded = All-remove (IsBounded T format) id x.server.clients h.bounded;
  }

  start-IsSafe :
      (id : String) (o : Option String) (x : System)
      → has id x.server.clients ≡ true
      → IsSafe x
      → IsSafe (start id o x)
  unfolding start
  start-IsSafe id none x here h = record {
    once = h.once;
    unclosed = h.unclosed;
    distinct = h.distinct;
    bounded = h.bounded;
  }
  start-IsSafe id (some message) x here h =
      leave-IsSafe id _ here (record {
        once = h.once;
        unclosed = h.unclosed;
        distinct = h.distinct;
        bounded = h.bounded;
      })

  handle_sse-IsSafe :
      (id : String) (r : Request) (x : System)
      → is_in id x.closed ≡ false
      → IsSafe x
      → IsSafe (handle_sse id r x)
  unfolding handle_sse subscribe
  handle_sse-IsSafe id r x fresh h =
      let c : Subscriber = new_subscriber id (first_values r.query []) in
      let cs : Clients = x.server.clients in
      start-IsSafe id (refusal r) _ (rw (has-insert id id c cs, eq_refl id) refl) (record {
        once = h.once;
        unclosed = λ k here. ground (arith, has-insert k id c cs, h.unclosed k, eq_iff k id);
        distinct = AreDistinct-insert id c cs h.distinct;
        bounded = All-insert (IsBounded T format) id c cs (omega arith) h.bounded;
      })

  serve_http-IsSafe :
      (id : String) (r : Request) (x : System)
      → is_in id x.closed ≡ false
      → IsSafe x
      → IsSafe (serve_http path id r x)
  unfolding serve_http
  serve_http-IsSafe id r x fresh h = elim (Bool-cases (r.path == path)) [
    | inl here ↦ rw here (handle_sse-IsSafe id r x fresh h)
    | inr elsewhere ↦ rw elsewhere h
  ]

  Step-IsSafe : {x y : System} {a : Action} → IsSafe x → Step marshal T format path x a y → IsSafe y
  unfolding broadcast take_event
  Step-IsSafe {x} h (connects id r new fresh) = serve_http-IsSafe id r x fresh h
  Step-IsSafe {x} h (publishes e) =
      let m : EventMap = get_event_map T e in
      record {
        once = h.once;
        unclosed = λ k here. h.unclosed k (rw (has-send_all format m k x.server.clients) at here);
        distinct = AreDistinct-send_all format m x.server.clients h.distinct;
        bounded = send_all-IsBounded T format m x.server.clients h.bounded;
      }
  Step-IsSafe {x} h (serves id c m rest found waits) =
      let d : Subscriber = record c { channel = rest } in
      let cs : Clients = x.server.clients in
      let (le, here) = lookup-IsBounded id c cs h.bounded found in
      record {
        once = h.once;
        unclosed = λ k there.
            ground (arith, has-insert k id d cs, h.unclosed k, h.unclosed id here, eq_iff k id);
        distinct = AreDistinct-insert id d cs h.distinct;
        bounded = All-insert (IsBounded T format) id d cs (ground arith) h.bounded;
      }
  Step-IsSafe {x} h (disconnects id here) = leave-IsSafe id x here h

  Run-IsSafe :
      {x y : System} {rest : List Action} → IsSafe x → Run marshal T format path x rest y → IsSafe y
  Run-IsSafe h stay = h
  Run-IsSafe h (then_run step run) = Run-IsSafe (Step-IsSafe h step) run

  -- Whatever requests, broadcasts, turns of the handlers and ends of requests follow each other,
  -- from a server with no clients: no channel is closed twice, and every channel in the map, which
  -- are those that `Broadcast` sends to and `Unsubscribe` closes, is not closed, has an id of its
  -- own and holds 16 maps at most.
  pub reached-IsSafe :
      {y : System} {rest : List Action} (responses : String → Response)
      → Run marshal T format path (no_clients responses) rest y
      → IsSafe y
  reached-IsSafe responses run =
      Run-IsSafe (record { unclosed = λ k here. cc; once = tt; distinct = tt; bounded = tt }) run
