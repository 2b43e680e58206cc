-- ===== src/EventServer/Runs/Served.antt =====
-- One step of the handlers of event_server/event_server.go, seen from one request.
use tpm_go.Prelude.{
  ◌≡◌, ◌∙◌, refl, ap, true, false, String, Option, none, some, List, [], ◌∷◌, ◌++◌, inl, inr, arith,
  Bool-cases,
}
use tpm_go.Prelude.Text.{◌==◌, eq_iff}
use tpm_go.Prelude.Maps.{lookup, lookup-insert}
use tpm_go.Events.Timestamp.{TimeOps}
use tpm_go.Events.Message.{Message}
use tpm_go.EventMaps.{Value, EventMap, get_event_map}
use tpm_go.EventServer.{
  Subscriber, offer, send_to, remove, new_subscriber, subscribe, unsubscribe, send_all, broadcast,
}
use tpm_go.EventServer.Sse.{
  serve_http, Request, System, first_values, refusal, leave, start, handle_sse, frame, take_event,
}
use tpm_go.EventServer.Runs.{IsServed, offered}

abbrev pub Clients : Type 0
Clients = List (String × Subscriber)

lookup-remove :
    (k j : String) (cs : Clients) → (k == j) ≡ false → lookup k (remove j cs) ≡ lookup k cs
lookup-remove k j [] h = refl
lookup-remove k j ((i, c) ∷ cs) h =
    ground (arith, eq_iff j i, eq_iff k i, eq_iff k j, lookup-remove k j cs h)

lookup-send_all :
    (format : Value → String) (m : EventMap) (k : String) (c : Subscriber) (cs : Clients)
    → lookup k cs ≡ some c
    → lookup k (send_all format m cs) ≡ some (send_to format m c)
unfolding send_all
lookup-send_all format m k c [] h = cc
lookup-send_all format m k c ((j, d) ∷ cs) h = elim (Bool-cases (k == j)) [
  | inl e ↦ let same : some d ≡ some c = rw e at h in rw e (ground (arith, same))
  | inr e ↦ rw e (lookup-send_all format m k c cs (rw e at h))
]

module _ (marshal : EventMap → Option String) (T : TimeOps) (format : Value → String) (id : String)
    (subscription : List (String × String)) where
  pub leave-other :
      (j : String) (waiting : List EventMap) (body : List String) (x : System)
      → (id == j) ≡ false
      → IsServed id subscription waiting body x
      → IsServed id subscription waiting body (leave j x)
  unfolding leave unsubscribe
  leave-other j waiting body x other h = record {
    client = h.client;
    found = lookup-remove id j x.server.clients other ∙ h.found;
    subscribed = h.subscribed;
    waits = h.waits;
    written = h.written;
  }

  start-other :
      (j : String) (o : Option String) (waiting : List EventMap) (body : List String) (x : System)
      → (id == j) ≡ false
      → IsServed id subscription waiting body x
      → IsServed id subscription waiting body (start j o x)
  unfolding start
  start-other j none waiting body x other h = record {
    client = h.client;
    found = h.found;
    subscribed = h.subscribed;
    waits = h.waits;
    written = rw other h.written;
  }
  start-other j (some message) waiting body x other h = leave-other j waiting body _ other (record {
    client = h.client;
    found = h.found;
    subscribed = h.subscribed;
    waits = h.waits;
    written = rw other h.written;
  })

  handle_sse-other :
      (j : String) (r : Request) (waiting : List EventMap) (body : List String) (x : System)
      → (id == j) ≡ false
      → IsServed id subscription waiting body x
      → IsServed id subscription waiting body (handle_sse j r x)
  unfolding handle_sse subscribe
  handle_sse-other j r waiting body x other h =
      let c : Subscriber = new_subscriber j (first_values r.query []) in
      start-other j (refusal r) waiting body _ other (record {
        client = h.client;
        found = rw (lookup-insert id j c x.server.clients, other) h.found;
        subscribed = h.subscribed;
        waits = h.waits;
        written = h.written;
      })

  pub serve_http-other :
      (path j : String) (r : Request) (waiting : List EventMap) (body : List String) (x : System)
      → (id == j) ≡ false
      → IsServed id subscription waiting body x
      → IsServed id subscription waiting body (serve_http path j r x)
  unfolding serve_http
  serve_http-other path j r waiting body x other h = elim (Bool-cases (r.path == path)) [
    | inl here ↦ rw here (handle_sse-other j r waiting body x other h)
    | inr elsewhere ↦ rw elsewhere h
  ]

  pub serve-other :
      (j : String) (c : Subscriber) (m : EventMap) (left waiting : List EventMap)
      (body : List String) (x : System)
      → (id == j) ≡ false
      → IsServed id subscription waiting body x
      → IsServed id subscription waiting body (take_event marshal j c m left x)
  unfolding take_event
  serve-other j c m left waiting body x other h = record {
    client = h.client;
    found = rw (lookup-insert id j (record c { channel = left }) x.server.clients, other) h.found;
    subscribed = h.subscribed;
    waits = h.waits;
    written = rw other h.written;
  }

  pub serve-own :
      (j : String) (c : Subscriber) (m : EventMap) (left waiting : List EventMap)
      (body : List String) (x : System)
      → (id == j) ≡ true
      → lookup j x.server.clients ≡ some c
      → c.channel ≡ m ∷ left
      → IsServed id subscription waiting body x
      → (waiting ≡ m ∷ left)
        × IsServed id subscription left
            (body ++ frame marshal (marshal m))
            (take_event marshal j c m left x)
  unfolding take_event
  serve-own j c m left waiting body x own found waits h =
      let here : j ≡ id = ground (arith, eq_iff id j) in
      let same : some h.client ≡ some c = ground (arith, h.found, found, eq_iff id j) in
      (
        ground (arith, same, h.waits, waits),
        record {
          client = record c { channel = left };
          found = rw (lookup-insert id j (record c { channel = left }) x.server.clients, own) refl;
          subscribed = ground (arith, same, h.subscribed);
          waits = refl;
          written = rw own (
              ap (λ b. b ++ frame marshal (marshal m))
                (ap (λ k. (x.responses k).body) here ∙ h.written));
        },
      )

  pub publish-IsServed :
      (e : Message) (waiting : List EventMap) (body : List String) (x : System)
      → IsServed id subscription waiting body x
      → IsServed id subscription
          (offered format subscription (get_event_map T e) waiting)
          body
          (record x { server = broadcast T format e x.server })
  unfolding broadcast send_to offer
  publish-IsServed e waiting body x h = record {
    client = send_to format (get_event_map T e) h.client;
    found = lookup-send_all format (get_event_map T e) id h.client x.server.clients h.found;
    subscribed = ground (arith, h.subscribed);
    waits = ground (arith, h.subscribed, h.waits);
    written = h.written;
  }
