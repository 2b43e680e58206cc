-- ===== src/EventServer/Runs/Passed.antt =====
-- A run of the handlers of event_server/event_server.go, seen from one request.
use mathlib.Core.List.{append_assoc, append-nil, Sublistᴰ}
use tpm_go.Prelude.{
  ◌≡◌, ◌<◌, ◌⊎◌, ◌+◌, refl, sym, true, false, String, Option, List, [], ◌∷◌, ◌++◌, take, drop, inl,
  inr, arith, Bool-cases, length, length-append, ltb,
}
use tpm_go.Prelude.Text.{◌==◌, eq_iff}
use tpm_go.Prelude.Maps.{has-lookup}
use tpm_go.Events.Timestamp.{TimeOps}
use tpm_go.Events.Message.{Message}
use tpm_go.EventMaps.{Value, EventMap, get_event_map}
use tpm_go.EventServer.{capacity, matches}
use tpm_go.EventServer.Delivery.{matching}
use tpm_go.EventServer.Sse.{
  System, frame, frames, Action, connect, publish, serve, disconnect, connects, publishes, serves,
  disconnects, Run, stay, then_run,
}
use tpm_go.EventServer.Runs.{IsServed, IsKept, turns, published, offered}
use tpm_go.EventServer.Runs.Served.{
  serve_http-other, leave-other, serve-other, serve-own, publish-IsServed,
}

module _ (marshal : EventMap → Option String) (T : TimeOps) (format : Value → String)
    (path : String) (id : String) (subscription : List (String × String)) where
  -- A run in which the channel takes up the events `more` of those that match, and the handler
  -- takes from it in its turns.
  pub record IsPassed (more waiting : List EventMap) (body : List String) (rest : List Action)
      (y : System) : Type 0 where
    pub part : Sublistᴰ more (matching T format subscription (published rest))
    pub all :
        (more ≡ matching T format subscription (published rest))
        ⊎ (capacity < length waiting + length (matching T format subscription (published rest)))
    pub now :
        IsServed id subscription
          (drop (turns id rest) (waiting ++ more))
          (body ++ frames marshal (take (turns id rest) (waiting ++ more)))
          y

  IsPassed-publish :
      (e : Message) (waiting : List EventMap) (body : List String) (rest : List Action) (y : System)
      → (more : List EventMap) × IsPassed more
          (offered format subscription (get_event_map T e) waiting)
          body
          rest
          y
      → (more : List EventMap) × IsPassed more waiting body (publish e ∷ rest) y
  IsPassed-publish e waiting body rest y (more, h) =
      let m : EventMap = get_event_map T e in
      elim (Bool-cases (matches format m subscription)) [
        | inl matched ↦ elim (Bool-cases (ltb (length waiting) capacity)) [
          | inl free ↦ (
            m ∷ more,
            record {
              part = rw matched (Sublistᴰ.cons-cons refl h.part);
              all = elim h.all [
                | inl same ↦ inl (rw (matched, same) refl)
                | inr over ↦
                    inr (ground (arith, over, matched, free, length-append waiting (m ∷ [])))
              ];
              now = rw (sym (append_assoc waiting (m ∷ []) more)) (rw (matched, free) at h.now);
            },
          )
          | inr full ↦ (
            more,
            record {
              part = rw matched (Sublistᴰ.cons h.part);
              all = inr (ground (arith, matched, full));
              now = rw (matched, full) at h.now;
            },
          )
        ]
        | inr other ↦ (
          more,
          record {
            part = rw other h.part;
            all = rw other (rw other at h.all);
            now = rw other at h.now;
          },
        )
      ]

  IsPassed-other :
      (j : String) (waiting : List EventMap) (body : List String) (rest : List Action) (y : System)
      → (id == j) ≡ false
      → (more : List EventMap) × IsPassed more waiting body rest y
      → (more : List EventMap) × IsPassed more waiting body (serve j ∷ rest) y
  IsPassed-other j waiting body rest y other (more, h) =
      (more, record { part = h.part; all = h.all; now = rw other h.now })

  IsPassed-own :
      (j : String) (m : EventMap) (left : List EventMap) (body : List String) (rest : List Action)
      (y : System)
      → (id == j) ≡ true
      → (more : List EventMap) × IsPassed more left (body ++ frame marshal (marshal m)) rest y
      → (more : List EventMap) × IsPassed more (m ∷ left) body (serve j ∷ rest) y
  unfolding frames
  IsPassed-own j m left body rest y own (more, h) = (
    more,
    record {
      part = h.part;
      all = elim h.all [ inl same ↦ inl same | inr over ↦ inr (omega (arith, over)) ];
      now =
          rw
            (
              own,
              sym (
                  append_assoc body (frame marshal (marshal m))
                    (frames marshal (take (turns id rest) (left ++ more)))),
            )
            h.now;
    },
  )

  pub Run-IsPassed :
      (rest : List Action) {x y : System} (waiting : List EventMap) (body : List String)
      → IsKept id rest
      → IsServed id subscription waiting body x
      → Run marshal T format path x rest y
      → (more : List EventMap) × IsPassed more waiting body rest y
  unfolding frames
  Run-IsPassed [] waiting body k h stay = (
    [],
    record {
      part = Sublistᴰ.slnil;
      all = inl refl;
      now = rw (append-nil waiting, append-nil body) h;
    },
  )
  Run-IsPassed (connect j r ∷ rest) {x} waiting body k h (then_run (connects _ _ new fresh) run) =
      let here = has-lookup id h.client x.server.clients h.found in
      let other : (id == j) ≡ false = ground (arith, eq_iff id j, here, new) in
      let (more, passed) =
        Run-IsPassed rest waiting body k
          (serve_http-other marshal T format id subscription path j r waiting body x other h) run in
      (more, record { part = passed.part; all = passed.all; now = passed.now })
  Run-IsPassed (publish e ∷ rest) {x} {y} waiting body k h (then_run (publishes _) run) =
      IsPassed-publish e waiting body rest y (
        Run-IsPassed rest (offered format subscription (get_event_map T e) waiting) body k
          (publish-IsServed marshal T format id subscription e waiting body x h) run)
  Run-IsPassed (serve j ∷ rest) {x} {y} waiting body k h
        (then_run (serves _ c m left found waits) run) =
      elim (Bool-cases (id == j)) [
        | inl own ↦
            let (same, served) =
              serve-own marshal T format id subscription j c m left waiting body x own found waits
                h in
            rw same (IsPassed-own j m left body rest y own (Run-IsPassed rest left _ k served run))
        | inr other ↦ IsPassed-other j waiting body rest y other (
            Run-IsPassed rest waiting body k
              (serve-other marshal T format id subscription j c m left waiting body x other h) run)
      ]
  Run-IsPassed (disconnect j ∷ rest) {x} waiting body k h (then_run (disconnects _ here) run) =
      let (more, passed) =
        Run-IsPassed rest waiting body k.1
          (leave-other marshal T format id subscription j waiting body x k.0 h) run in
      (more, record { part = passed.part; all = passed.all; now = passed.now })
