-- ===== src/Sinks/Sse.antt =====
-- sinks/http_sink.go: the loop that hands events to the event server, with the sink's channel `in`.
-- The flow before the sink sends to the channel and closes it, and the loop's deferred call closes
-- it too. Go panics at a close of a closed channel, and at a send to one.
pub mod Ends
use tpm_go.Prelude.{
  Bool, true, false, ◌&&◌, not, Option, none, some, String, List, [], ◌∷◌, if◌then◌else◌,
}
use tpm_go.Events.Timestamp.{TimeOps}
use tpm_go.Events.Message.{Message}
use tpm_go.EventMaps.{Value}
use tpm_go.EventServer.{EventServer, broadcast}
use tpm_go.Sinks.Turns.{Turn, cancelled, closed, other, item}

pub record Sink : Type 0 where
  pub server : EventServer
  -- the channel `in`, and the goroutine with the loop
  pub is_open : Bool
  pub is_looping : Bool

-- NewSSESink
abbrev pub new_sse_sink : EventServer → Sink
new_sse_sink server = record { server = server; is_open = true; is_looping = true }

-- What the flow and the loop do. A send is received at once, and none is a value that is not an
-- event.
pub data Action : Type 0 where
  sends : Option Message → Action
  closes : Action
  -- the cases of the loop's `select` that return: the context is done, the channel is closed
  context_done receives_closed : Action

-- close(sink.in)
unfoldable pub close_in : Sink → Option Sink
close_in sink = if sink.is_open then some (record sink { is_open = false }) else none

-- The return of the loop, with its deferred call.
unfoldable pub leave : Sink → Option Sink
unfolding close_in
leave sink = close_in (record sink { is_looping = false })

module _ (T : TimeOps) (format : Value → String) where
  unfoldable pub receive : Option Message → Sink → Sink
  receive none sink = sink
  receive (some event) sink = record sink { server = broadcast T format event sink.server }

  -- None is a panic. What cannot happen changes nothing: a send waits if nobody receives, and the
  -- cases of `select` wait for the context, or for a close.
  unfoldable pub step : Action → Sink → Option Sink
  unfolding receive leave
  step (sends value) sink =
      if not sink.is_open
      then none
      else if sink.is_looping
      then some (receive value sink)
      else some sink
  step closes sink = close_in sink
  step context_done sink = if sink.is_looping then leave sink else some sink
  step receives_closed sink = if sink.is_looping && not sink.is_open then leave sink else some sink

  unfoldable pub run : List Action → Sink → Option Sink
  unfolding step
  run [] sink = some sink
  run (a ∷ rest) sink = elim (step a sink) [ none ↦ none | some sink' ↦ run rest sink' ]

-- What the flow before the sink does with its turns.
unfoldable pub action_of : Turn Message → Action
action_of (item event) = sends (some event)
action_of other = sends none
action_of closed = closes
action_of cancelled = context_done
