-- ===== src/Sinks/Turns.antt =====
-- What a sink that keeps no batch takes from its channel `in`: the cases of the `select` of its
-- loop, where `A` is the type that the sink asserts and `other` a value that is not of it.
use tpm_go.Prelude.{Bool, true, false, Option, none, some, List, [], ◌∷◌}

pub data Turn (A : Type 0) : Type 0 where
  cancelled closed other : Turn A
  item : A → Turn A

-- `transmit` of a processor, as the sink behind it sees it: the elements of `out`, and then the
-- sink's channel is closed.
unfoldable pub transmit : {A : Type 0} → List A → List (Turn A)
transmit [] = closed ∷ []
transmit (x ∷ xs) = item x ∷ transmit xs

-- What becomes of a channel, by whether it is open: none is a panic, of a send or a close after the
-- channel was closed.
unfoldable pub play : {A : Type 0} → List (Turn A) → Bool → Option Bool
play [] is_open = some is_open
play (cancelled ∷ rest) is_open = play rest is_open
play (closed ∷ rest) true = play rest false
play (other ∷ rest) true = play rest true
play (item x ∷ rest) true = play rest true
play (_ ∷ rest) false = none
