-- ===== src/Sinks/Sse/Ends.antt =====
-- How the loop of sinks/http_sink.go ends behind a processor.
use tpm_go.Prelude.{◌≡◌, refl, none, some, false, String, List, [], ◌∷◌, ◌++◌, map, ◌∙◌}
use mathlib.Core.List.{append-nil}
use tpm_go.Events.Timestamp.{TimeOps}
use tpm_go.Events.Message.{Message}
use tpm_go.EventMaps.{Value}
use tpm_go.EventServer.{EventServer, broadcast, broadcast_all}
use tpm_go.Sinks.Turns.{transmit, item}
use tpm_go.Sinks.Sse.{
  Sink, Action, context_done, receives_closed, new_sse_sink, action_of, leave, close_in, step, run,
}

-- What `transmit` of a processor, or `To` of a flow, does to the sink for these events.
abbrev pub by_flow : List Message → List Action
by_flow es = map action_of (transmit es)

-- The events that are sent before.
abbrev pub sent : List Message → List Action
sent es = map (λ e. action_of (item e)) es

module _ (T : TimeOps) (format : Value → String) where
  run-sent :
      (es : List Message) (rest : List Action) (server : EventServer)
      → run T format (sent es ++ rest) (new_sse_sink server)
        ≡ run T format rest (new_sse_sink (broadcast_all T format es server))
  unfolding run step action_of broadcast_all
  run-sent [] rest server = refl
  run-sent (e ∷ es) rest server = run-sent es rest (broadcast T format e server)

  run-by_flow :
      (es : List Message) (rest : List Action) (server : EventServer)
      → run T format (by_flow es ++ rest) (new_sse_sink server)
        ≡ run T format rest
            (record (new_sse_sink (broadcast_all T format es server)) { is_open = false })
  unfolding run step action_of broadcast_all transmit
  run-by_flow [] rest server = refl
  run-by_flow (e ∷ es) rest server = run-by_flow es rest (broadcast T format e server)

  run-late :
      (es : List Message) (sink : Sink)
      → sink.is_open ≡ false
      → run T format (by_flow es) sink ≡ none
  unfolding run step action_of transmit
  run-late [] sink h = rw h refl
  run-late (e ∷ es) sink h = rw h refl

  -- Behind a processor's `transmit`, the SSE sink broadcasts all the events of the processor in
  -- their order. When its output has ended, the program panics as the loop finds the channel
  -- closed. If instead the context is done when some of the events were sent, the program panics as
  -- the processor goes on and sends the others, or closes the channel.
  pub run-transmit :
      (es fs : List Message) (server : EventServer)
      → (run T format (by_flow es) (new_sse_sink server)
          ≡ some (record (new_sse_sink (broadcast_all T format es server)) { is_open = false }))
        × (run T format (by_flow es ++ receives_closed ∷ []) (new_sse_sink server) ≡ none)
        × (run T format (sent es ++ context_done ∷ by_flow fs) (new_sse_sink server) ≡ none)
  unfolding run step leave close_in
  run-transmit es fs server = (
    (let whole = run-by_flow es [] server in rw append-nil at whole),
    run-by_flow es (receives_closed ∷ []) server,
    run-sent es (context_done ∷ by_flow fs) server
        ∙ run-late fs
            (record (new_sse_sink (broadcast_all T format es server)) {
              is_open = false;
              is_looping = false;
            })
            refl,
  )
