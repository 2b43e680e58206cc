-- ===== src/Events/Timestamp.antt =====
-- Instants and durations, as api/v1/events and the processors use them. An instant
-- (`time.Time`) is its distance in nanoseconds from the Unix epoch, a duration
-- (`time.Duration`) its number of nanoseconds. `timestamppb` is a package outside the
-- repository, and `Duration.Seconds` is a float, so both are a record of operations.
pub mod Elapsed
use tpm_go.Prelude.{◌≡◌, Option, none, some, if◌then◌else◌}
use tpm_go.Prelude.Int.{ℤ, pos, negsuc, ◌-ℤ◌, ◌*ℤ◌, ◌≤ℤ◌, ltb_ℤ}

-- google.protobuf.Timestamp
pub record Timestamp : Type 0 where
  pub seconds : ℤ
  pub nanos : ℤ

abbrev pub second : ℤ
second = pos 1000000000

-- time.Hour
abbrev pub hour : ℤ
hour = pos 3600000000000

abbrev pub max_duration : ℤ
max_duration = pos 9223372036854775807

abbrev pub min_duration : ℤ
min_duration = negsuc 9223372036854775807

-- t.Sub(u): a difference beyond the range of an int64 is cut to its end.
unfoldable pub sub : ℤ → ℤ → ℤ
sub t u =
    let d = t -ℤ u in
    if ltb_ℤ d min_duration then min_duration else if ltb_ℤ max_duration d then max_duration else d

pub record TimeOps : Type 0 where
  -- (*timestamppb.Timestamp).AsTime
  pub as_time : Option Timestamp → ℤ
  -- timestamppb.New
  pub new_timestamp : ℤ → Timestamp
  -- int32(d.Seconds())
  pub int32_seconds : ℤ → ℤ

-- What the packages document: `New` keeps the instant, a nil timestamp is the epoch, and a whole
-- number of seconds that fits an int32 is counted exactly.
pub record TimeLaws (ops : TimeOps) : Type 0 where
  pub as_time-new_timestamp : (t : ℤ) → ops.as_time (some (ops.new_timestamp t)) ≡ t
  pub as_time-none : ops.as_time none ≡ pos 0
  pub int32_seconds-whole :
      (n : ℤ) → negsuc 2147483647 ≤ℤ n → n ≤ℤ pos 2147483647 → ops.int32_seconds (n *ℤ second) ≡ n
