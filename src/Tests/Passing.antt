-- ===== src/Tests/Passing.antt =====
-- Runs of the sources, and of the sinks that pass on each event.
use tpm_go.Prelude.{◌≡◌, refl, none, some, String, [], ◌∷◌, ◌++◌, false}
use tpm_go.Prelude.Int.{pos}
use tpm_go.Events.Stop.{arrival}
use tpm_go.Events.Message.{Message, stop}
use tpm_go.EventMaps.{Value, text}
use tpm_go.Sinks.Turns.{cancelled, item}
use tpm_go.EventServer.{broadcast_all}
use tpm_go.Sinks.Sse.{new_sse_sink, context_done, receives_closed}
use tpm_go.Sinks.Sse.Ends.{by_flow, sent, run-transmit}
use tpm_go.Sinks.Log
use tpm_go.Sinks.Sse
use tpm_go.Sources.Http
use tpm_go.Sources.Http.{tick, request_failed, answered}
use tpm_go.Tests.Base.{exact, stop_event}

abbrev arrived : Message
arrived = stop (some (stop_event arrival "v1" "A" 100))

abbrev format : Value → String
format (text s) = s
format _ = "?"

-- A body that was read is sent, and an error, a status other than 2xx and a body that cannot be
-- read are passed over.
one_body :
    Http.init (pos 10000000000) (
      tick request_failed
      ∷ tick (answered (pos 404) (some []))
      ∷ tick (answered (pos 200) none)
      ∷ tick (answered (pos 299) (some (7 ∷ [])))
      ∷ Http.cancelled
      ∷ tick (answered (pos 200) (some (8 ∷ [])))
      ∷ [])
    ≡ some ((7 ∷ []) ∷ [])
unfolding Http.init
one_body = refl

no_ticker : Http.init (pos 0) (tick request_failed ∷ []) ≡ none
unfolding Http.init
no_ticker = refl

run-transmit_example :
    (Sse.run exact format (by_flow (arrived ∷ [])) (new_sse_sink (record { clients = [] }))
      ≡ some
          (record (new_sse_sink
            (broadcast_all exact format (arrived ∷ []) (record { clients = [] }))) {
              is_open = false;
            }))
    × (Sse.run exact format
          (by_flow (arrived ∷ []) ++ receives_closed ∷ [])
          (new_sse_sink (record { clients = [] }))
        ≡ none)
    × (Sse.run exact format
          (sent (arrived ∷ []) ++ context_done ∷ by_flow (arrived ∷ []))
          (new_sse_sink (record { clients = [] }))
        ≡ none)
run-transmit_example =
    run-transmit exact format (arrived ∷ []) (arrived ∷ []) (record { clients = [] })

-- Cancelled, the loop leaves without a panic, and has closed the channel.
one_close :
    Sse.run exact format (context_done ∷ []) (new_sse_sink (record { clients = [] }))
    ≡ some (record { server = record { clients = [] }; is_open = false; is_looping = false })
unfolding Sse.run
one_close = refl

-- Of an entry that is empty, the log has no argument.
two_args :
    Log.args_of exact format Log.info
      (("route_id", text "Red") ∷ ("trip_id", text "") ∷ ("stop_id", text "A") ∷ [])
    ≡ ("route_id", text "Red") ∷ ("stop_id", text "A") ∷ []
unfolding Log.args_of
two_args = refl

one_line :
    Log.do_sink exact format (Log.level_of "error") (item arrived ∷ cancelled ∷ item arrived ∷ [])
    ≡ Log.line_of exact format Log.error arrived ∷ []
unfolding Log.do_sink Log.level_of
one_line = refl
