-- ===== src/Processors/Elapsed.antt =====
-- The seconds between two stop events, as the headway, dwell and travel time processors count
-- them, where their timestamps are whole seconds after the epoch.
use tpm_go.Prelude.{ℕ, ◌≡◌, arith}
use tpm_go.Prelude.Int.{pos, ◌-ℤ◌}
use tpm_go.Events.Timestamp.{TimeOps, TimeLaws, sub}
use tpm_go.Events.Timestamp.Elapsed.{IsInEra, at_second, int32_seconds-sub}
use tpm_go.Events.Attributes
use tpm_go.Events.Stop.{StopEvent}

-- The event's timestamp is `n` seconds after the epoch.
abbrev pub IsAt : TimeOps → ℕ → StopEvent → Type 0
IsAt T n e = (T.as_time (Attributes.get_timestamp e.attributes) ≡ at_second n) × IsInEra n

pub seconds-IsAt :
    (T : TimeOps) (K : TimeLaws T) (a d : StopEvent) (m n : ℕ)
    → IsAt T m a
    → IsAt T n d
    → T.int32_seconds (
        sub
          (T.as_time (Attributes.get_timestamp d.attributes))
          (T.as_time (Attributes.get_timestamp a.attributes)))
      ≡ pos n -ℤ pos m
seconds-IsAt T K a d m n (ta, ea) (td, ed) = ground (arith, ta, td, int32_seconds-sub K n m ed ea)
