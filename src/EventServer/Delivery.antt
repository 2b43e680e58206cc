-- ===== src/EventServer/Delivery.antt =====
-- What a subscriber's channel holds after some broadcasts of event_server/event_server.go.
use mathlib.Core.List.{append_assoc, append-nil}
use tpm_go.Prelude.{
  ◌≡◌, ◌≤◌, ◌+◌, ◌∙◌, refl, sym, ap, inl, inr, true, String, List, [], ◌∷◌, ◌++◌, length,
  length-append, ltb, All, arith, if◌then◌else◌, Bool-cases,
}
use tpm_go.Events.Timestamp.{TimeOps}
use tpm_go.Events.Message.{Message}
use tpm_go.EventMaps.{Value, EventMap, get_event_map}
use tpm_go.EventServer.{
  Subscriber, EventServer, capacity, matches, offer, send_to, send_all, broadcast, broadcast_all,
}

module _ (T : TimeOps) (format : Value → String) where
  -- The maps of the events that a subscription matches, in order.
  abbrev pub matching : List (String × String) → List Message → List EventMap
  matching subscription [] = []
  matching subscription (e ∷ es) =
      let m = get_event_map T e in
      let rest = matching subscription es in
      if matches format m subscription then m ∷ rest else rest

  -- The channel has room for all of them.
  abbrev pub HasRoom : List Message → String × Subscriber → Type 0
  HasRoom es (id, c) = length c.channel + length (matching c.subscription es) ≤ capacity

  abbrev pub attach : List Message → Subscriber → Subscriber
  attach es c = record c { channel = c.channel ++ matching c.subscription es }

  abbrev pub attach_all : List Message → List (String × Subscriber) → List (String × Subscriber)
  attach_all es [] = []
  attach_all es ((id, c) ∷ cs) = (id, attach es c) ∷ attach_all es cs

  send_to-attach :
      (e : Message) (es : List Message) (id : String) (c : Subscriber)
      → HasRoom (e ∷ es) (id, c)
      → HasRoom es (id, send_to format (get_event_map T e) c)
        × (attach es (send_to format (get_event_map T e) c) ≡ attach (e ∷ es) c)
  unfolding send_to offer
  send_to-attach e es id c h =
      let m = get_event_map T e in
      elim (Bool-cases (matches format m c.subscription)) [
        | inl matched ↦
            let room : length c.channel + length (m ∷ matching c.subscription es) ≤ capacity =
              rw matched at h in
            let free : ltb (length c.channel) capacity ≡ true = ground arith in
            rw (matched, free)
              (
                omega (arith, length-append c.channel (m ∷ [])),
                ap (λ l. record c { channel = l })
                    (append_assoc c.channel (m ∷ []) (matching c.subscription es)),
              )
        | inr other ↦ rw other (rw other at h, refl)
      ]

  send_all-attach_all :
      (e : Message) (es : List Message) (cs : List (String × Subscriber))
      → All (HasRoom (e ∷ es)) cs
      → All (HasRoom es) (send_all format (get_event_map T e) cs)
        × (attach_all es (send_all format (get_event_map T e) cs) ≡ attach_all (e ∷ es) cs)
  unfolding send_all
  send_all-attach_all e es [] h = (tt, refl)
  send_all-attach_all e es ((id, c) ∷ cs) h =
      let (room, same) = send_to-attach e es id c h.0 in
      let (rooms, sames) = send_all-attach_all e es cs h.1 in
      ((room, rooms), λ i. (id, same i) ∷ sames i)

  attach_all-nil : (cs : List (String × Subscriber)) → attach_all [] cs ≡ cs
  attach_all-nil [] = refl
  attach_all-nil ((id, c) ∷ cs) =
      λ i. (id, record c { channel = append-nil c.channel i }) ∷ attach_all-nil cs i

  -- Where every channel has room for all events that its subscription matches, each subscriber's
  -- channel holds, after the broadcasts, what it held before and then the maps of exactly those
  -- events, in the order of the broadcasts.
  pub broadcast_all-attach_all :
      (es : List Message) (server : EventServer)
      → All (HasRoom es) server.clients
      → (broadcast_all T format es server).clients ≡ attach_all es server.clients
  unfolding broadcast_all broadcast
  broadcast_all-attach_all [] server h = sym (attach_all-nil server.clients)
  broadcast_all-attach_all (e ∷ es) server h =
      let (rooms, same) = send_all-attach_all e es server.clients h in
      broadcast_all-attach_all es (broadcast T format e server) rooms ∙ same

  -- The channel holds no more than its capacity.
  abbrev pub IsBounded : String × Subscriber → Type 0
  IsBounded (id, c) = length c.channel ≤ capacity

  offer-IsBounded :
      (m : EventMap) (id : String) (c : Subscriber) → IsBounded (id, c) → IsBounded (id, offer m c)
  unfolding offer
  offer-IsBounded m id c h = ground (arith, length-append c.channel (m ∷ []))

  pub send_all-IsBounded :
      (m : EventMap) (cs : List (String × Subscriber))
      → All IsBounded cs
      → All IsBounded (send_all format m cs)
  unfolding send_all send_to
  send_all-IsBounded m [] h = tt
  send_all-IsBounded m ((id, c) ∷ cs) h = (
    elim (Bool-cases (matches format m c.subscription)) [
      | inl matched ↦ rw matched (offer-IsBounded m id c h.0)
      | inr other ↦ rw other h.0
    ],
    send_all-IsBounded m cs h.1,
  )

  -- No broadcasts fill a channel beyond its capacity.
  pub broadcast_all-IsBounded :
      (es : List Message) (server : EventServer)
      → All IsBounded server.clients
      → All IsBounded (broadcast_all T format es server).clients
  unfolding broadcast_all broadcast
  broadcast_all-IsBounded [] server h = h
  broadcast_all-IsBounded (e ∷ es) server h =
      broadcast_all-IsBounded es (broadcast T format e server)
        (send_all-IsBounded (get_event_map T e) server.clients h)
