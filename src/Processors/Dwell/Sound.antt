-- ===== src/Processors/Dwell/Sound.antt =====
-- The dwell times that processors/transit/dwell_events sends, whatever the store holds.
use tpm_go.Prelude.{Option, none, some, List, All, arith}
use tpm_go.Prelude.Int.{ℤ, pos, ◌≤ℤ◌}
use tpm_go.Events.Timestamp.{TimeOps}
use tpm_go.Events.Stop.{StopEvent}
use tpm_go.Events.Dwell.{DwellTimeEvent}
use tpm_go.StateStore.Interface.{StateStore}
use tpm_go.Processors.Element.{Element, All-run_stream}
use tpm_go.Processors.Dwell.{dwell_event, process, do_stream}

abbrev IsDwell : DwellTimeEvent → Type 0
IsDwell d = pos 0 ≤ℤ d.dwell_time_seconds

module _ (T : TimeOps) (S : StateStore) where
  process-IsDwell :
      (t u : ℤ) (event : Option StopEvent) (s : S.State) → All IsDwell (process T S t u event s).1
  unfolding process dwell_event
  process-IsDwell t u none s = tt
  process-IsDwell t u (some event) s = ground arith

  -- No dwell time that is sent is negative: for any elements, any store and any operations on
  -- time.
  do_stream-IsDwell :
      (es : List (ℤ × ℤ × Element StopEvent)) (s : S.State) → All IsDwell (do_stream T S es s).1
  unfolding do_stream
  do_stream-IsDwell = All-run_stream (process T S) IsDwell process-IsDwell
