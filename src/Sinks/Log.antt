-- ===== src/Sinks/Log.antt =====
-- sinks/log_sink.go: the lines that are logged, in order. `format` is `fmt.Sprintf("%v", …)` of a
-- value. The event's map is iterated in the order of its entries. The value of another type, which
-- is an argument of the warning, is left out.
use tpm_go.Prelude.{String, List, [], ◌∷◌, if◌then◌else◌}
use tpm_go.Prelude.Text.{◌==◌, ◌<>◌}
use tpm_go.Events.Timestamp.{TimeOps}
use tpm_go.Events.Message.{Message}
use tpm_go.EventMaps.{Value, EventMap, get_event_map}
use tpm_go.Sinks.Parquet.{go_type}
use tpm_go.Sinks.Turns.{Turn, cancelled, closed, other, item}

pub data Level : Type 0 where
  info warn error : Level

pub record Line : Type 0 where
  pub level : Level
  pub text : String
  pub args : EventMap

-- The switch of `NewLogSink`.
unfoldable pub level_of : String → Level
level_of configured =
    if configured == "info"
    then info
    else if configured == "warn"
    then warn
    else if configured == "error"
    then error
    else info

module _ (T : TimeOps) (format : Value → String) (level : Level) where
  -- The loop over the event's map.
  unfoldable pub args_of : EventMap → EventMap
  args_of [] = []
  args_of ((k, v) ∷ rest) =
      let later = args_of rest in if format v == "" then later else (k, v) ∷ later

  unfoldable pub line_of : Message → Line
  unfolding args_of get_event_map
  line_of event = record {
    level = level;
    text = "Event: " <> go_type event;
    args = args_of (get_event_map T event);
  }

  unfoldable pub do_sink : List (Turn Message) → List Line
  unfolding line_of
  do_sink [] = []
  do_sink (cancelled ∷ rest) = []
  do_sink (closed ∷ rest) =
      record { level = error; text = "log sink: channel closed"; args = [] } ∷ []
  do_sink (other ∷ rest) =
      record { level = warn; text = "log sink: invalid event type"; args = [] } ∷ do_sink rest
  do_sink (item event ∷ rest) = line_of event ∷ do_sink rest
