-- ===== src/Events/Timestamp/Elapsed.antt =====
-- The seconds between two instants that are whole seconds after the epoch: what the expression
-- `int32(t.Sub(u).Seconds())` of the processors counts.
use tpm_go.Prelude.{ℕ, ◌≡◌, ◌*◌, ◌<◌, arith, ap, ◌∙◌}
use tpm_go.Prelude.Int.{ℤ, pos, ◌-ℤ◌, ◌*ℤ◌, le→ltb_ℤ, -ℤ_parts}
use tpm_go.Events.Timestamp.{second, max_duration, min_duration, sub, TimeOps, TimeLaws}

-- The seconds from the epoch to the year 2038.
abbrev pub IsInEra : ℕ → Type 0
IsInEra n = n < 2147483648

-- The instant `n` seconds after the epoch.
abbrev pub at_second : ℕ → ℤ
at_second n = pos (n * 1000000000)

scale-sub : (m n : ℕ) → at_second m -ℤ at_second n ≡ (pos m -ℤ pos n) *ℤ second
unfolding ◌*ℤ◌ ◌-ℤ◌
scale-sub m n = ground arith

sub-at_second :
    (m n : ℕ) → IsInEra m → IsInEra n → sub (at_second m) (at_second n) ≡ (pos m -ℤ pos n) *ℤ second
unfolding sub
sub-at_second m n hm hn =
    let d : ℤ = at_second m -ℤ at_second n in
    rw
      (
        le→ltb_ℤ d min_duration (omega (arith, -ℤ_parts (at_second m) (at_second n))),
        le→ltb_ℤ max_duration d (omega (arith, -ℤ_parts (at_second m) (at_second n))),
      )
      (scale-sub m n)

-- Between instants of the era the count is the exact difference of their seconds.
pub int32_seconds-sub :
    {T : TimeOps} (L : TimeLaws T) (m n : ℕ)
    → IsInEra m
    → IsInEra n
    → T.int32_seconds (sub (at_second m) (at_second n)) ≡ pos m -ℤ pos n
int32_seconds-sub {T} L m n hm hn =
    ap T.int32_seconds (sub-at_second m n hm hn)
    ∙ L.int32_seconds-whole (pos m -ℤ pos n) (omega (arith, -ℤ_parts (pos m) (pos n)))
        (omega (arith, -ℤ_parts (pos m) (pos n)))
