-- ===== src/Sources/Http.antt =====
-- The loop `init` of sources/http_source.go: the bodies that are sent to `out`, in order. An input
-- is the case that `select` takes.
use tpm_go.Prelude.{ℕ, Bool, ◌||◌, Option, none, some, List, [], ◌∷◌, if◌then◌else◌}
use tpm_go.Prelude.Int.{ℤ, pos, ltb_ℤ, leb_ℤ}

-- What `client.Get` and the read of the body give: an error, or the status and the body, none
-- where it cannot be read.
pub data Answer : Type 0 where
  request_failed : Answer
  answered : ℤ → Option (List ℕ) → Answer

pub data Case : Type 0 where
  cancelled : Case
  tick : Answer → Case

-- A body that was read, before those of later ticks.
unfoldable pub send_body : Option (List ℕ) → List (List ℕ) → List (List ℕ)
send_body none later = later
send_body (some body) later = body ∷ later

unfoldable pub send_answer : Answer → List (List ℕ) → List (List ℕ)
unfolding send_body
send_answer request_failed later = later
send_answer (answered status body) later =
    if ltb_ℤ status (pos 200) || leb_ℤ (pos 300) status then later else send_body body later

-- The loop over the ticks.
unfoldable pub poll : List Case → List (List ℕ)
unfolding send_answer
poll [] = []
poll (cancelled ∷ rest) = []
poll (tick answer ∷ rest) = send_answer answer (poll rest)

-- time.NewTicker panics at an interval that is not positive.
unfoldable pub new_ticker : ℤ → Bool
new_ticker interval = ltb_ℤ (pos 0) interval

-- None is that panic.
unfoldable pub init : ℤ → List Case → Option (List (List ℕ))
unfolding new_ticker poll
init interval cases = if new_ticker interval then some (poll cases) else none
