-- ===== src/EventServer/Runs/Written.antt =====
-- What the handlers of event_server/event_server.go write to a request while others come and go.
use mathlib.Core.List.{append_assoc, Sublistᴰ}
use tpm_go.Prelude.{
  ℕ, zero, suc, ◌≡◌, ◌≤◌, ◌+◌, ◌∙◌, refl, sym, ap, String, Option, List, [], ◌∷◌, ◌++◌, take, drop,
  take-append, inl, inr, arith, length,
}
use tpm_go.Events.Timestamp.{TimeOps}
use tpm_go.EventMaps.{Value, EventMap}
use tpm_go.EventServer.{capacity}
use tpm_go.EventServer.Delivery.{matching}
use tpm_go.EventServer.Sse.{System, frame, frames, Action, Run}
use tpm_go.EventServer.Runs.{IsServed, IsKept, turns, published}
use tpm_go.EventServer.Runs.Passed.{Run-IsPassed}

module _ (marshal : EventMap → Option String) (T : TimeOps) (format : Value → String)
    (path : String) (id : String) (subscription : List (String × String)) where
  frames-append :
      (ms ns : List EventMap) → frames marshal (ms ++ ns) ≡ frames marshal ms ++ frames marshal ns
  unfolding frames
  frames-append [] ns = refl
  frames-append (m ∷ ms) ns =
      rw (frames-append ms ns)
        (sym (append_assoc (frame marshal (marshal m)) (frames marshal ms) (frames marshal ns)))

  Sublist-nil : (xs : List EventMap) → Sublistᴰ [] xs
  Sublist-nil [] = Sublistᴰ.slnil
  Sublist-nil (x ∷ xs) = Sublistᴰ.cons (Sublist-nil xs)

  Sublist-take : (n : ℕ) {xs ys : List EventMap} → Sublistᴰ xs ys → Sublistᴰ (take n xs) ys
  Sublist-take zero {ys} h = Sublist-nil ys
  Sublist-take (suc n) Sublistᴰ.slnil = Sublistᴰ.slnil
  Sublist-take (suc n) (Sublistᴰ.cons h) = Sublistᴰ.cons (Sublist-take (suc n) h)
  Sublist-take (suc n) (Sublistᴰ.cons-cons e h) = Sublistᴰ.cons-cons e (Sublist-take n h)

  -- Where the request `id` is not ended and its handler has a turn for each map that waits in its
  -- channel, whatever requests, broadcasts and turns of others come between, its response is what
  -- it was, then a frame for each of those maps in their order, then frames of maps of events that
  -- its subscription matches and that were broadcast meanwhile, in the order of the broadcasts. A
  -- map that is not serialized has no frame.
  pub body-waiting :
      (rest : List Action) {x y : System} (waiting : List EventMap) (body : List String)
      → IsKept id rest
      → IsServed id subscription waiting body x
      → Run marshal T format path x rest y
      → length waiting ≤ turns id rest
      → (later : List EventMap) × Sublistᴰ later (matching T format subscription (published rest))
        × ((y.responses id).body ≡ body ++ (frames marshal waiting ++ frames marshal later))
  body-waiting rest waiting body k h run enough =
      let (more, passed) =
        Run-IsPassed marshal T format path id subscription rest waiting body k h run in
      let (n, split) = take-append waiting more (turns id rest) enough in
      (
        take n more,
        Sublist-take n passed.part,
        passed.now.written ∙ rw split (ap (λ b. body ++ b) (frames-append waiting (take n more))),
      )

  -- Where the channel of the request `id` has room for all events of a run that its subscription
  -- matches, and the request is not ended, then whatever requests, broadcasts and turns of others
  -- come between, nothing is lost and nothing else comes: of what waited followed by the maps of
  -- those events, in the order of the broadcasts, the handler's n turns have written the frames of
  -- the first n to the response, and the rest waits.
  pub body-matching :
      (rest : List Action) {x y : System} (waiting : List EventMap) (body : List String)
      → IsKept id rest
      → IsServed id subscription waiting body x
      → Run marshal T format path x rest y
      → length waiting + length (matching T format subscription (published rest)) ≤ capacity
      → let all = waiting ++ matching T format subscription (published rest) in
        IsServed id subscription
          (drop (turns id rest) all)
          (body ++ frames marshal (take (turns id rest) all))
          y
  body-matching rest waiting body k h run room =
      let (more, passed) =
        Run-IsPassed marshal T format path id subscription rest waiting body k h run in
      let same : more ≡ matching T format subscription (published rest) = elim passed.all [
        | inl equal ↦ equal
        | inr over ↦ ground arith
      ] in
      rw same at passed.now
