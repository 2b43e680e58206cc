-- ===== src/Prelude/Decimal.antt =====
-- Numbers in decimal: strconv.FormatUint(n, 10), and the verb %d at a number that is not negative.
-- The fuel is the number of digits that are written, so twenty are enough for a uint64.
use Prim.Native.Nat.{ℕ, zero, suc, ◌/◌, ◌%◌}
use Prim.Native.String.{String}
use tpm_go.Prelude.Tests.{ltb, if◌then◌else◌}
use tpm_go.Prelude.Text.{◌<>◌}

digit : ℕ → String
digit zero = "0"
digit (suc zero) = "1"
digit (suc (suc zero)) = "2"
digit (suc (suc (suc zero))) = "3"
digit (suc (suc (suc (suc zero)))) = "4"
digit (suc (suc (suc (suc (suc zero))))) = "5"
digit (suc (suc (suc (suc (suc (suc zero)))))) = "6"
digit (suc (suc (suc (suc (suc (suc (suc zero))))))) = "7"
digit (suc (suc (suc (suc (suc (suc (suc (suc zero)))))))) = "8"
digit _ = "9"

format : ℕ → ℕ → String
format zero n = ""
format (suc fuel) n =
    let more = format fuel (n / 10) <> digit (n % 10) in if ltb n 10 then digit n else more

unfoldable pub format_uint : ℕ → String
unfolding format digit ◌<>◌
format_uint n = format 20 n
