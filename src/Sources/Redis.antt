-- ===== src/Sources/Redis.antt =====
-- The loop `init` of sources/redis_source.go: the payloads that are sent to `out`, in order. An
-- input is the case that `select` takes. A text of Go is its bytes.
use tpm_go.Prelude.{ℕ, List, [], ◌∷◌}

pub data Case : Type 0 where
  cancelled closed : Case
  payload : List ℕ → Case

unfoldable pub init : List Case → List (List ℕ)
init [] = []
init (cancelled ∷ rest) = []
init (closed ∷ rest) = []
init (payload b ∷ rest) = b ∷ init rest
