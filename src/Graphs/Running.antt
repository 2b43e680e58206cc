-- ===== src/Graphs/Running.antt =====
-- `Run` of graphs/graph.go: what its pipelines do to the channels of their sinks.
pub mod Shared
use tpm_go.Prelude.{Bool, Option, none, some, ◌++◌, if◌then◌else◌, List, [], ◌∷◌}
use tpm_go.Prelude.Int.{ℤ}
use tpm_go.StateStore.Interface.{StateStore}
use tpm_go.Pipelines.{Makers, Pipeline}
use tpm_go.Sinks.Turns.{Turn}
use tpm_go.Pipelines.Items.{Item}
use tpm_go.Pipelines.Flows.{Libraries}
use tpm_go.Pipelines.Run.{Streams, run}

-- What is done to the channels of the sinks that `is` picks.
unfoldable pub turns_to : {A B : Type 0} → (A → Bool) → List (A × B) → List B
turns_to is [] = []
turns_to is ((sink, turns) ∷ rest) =
    let others = turns_to is rest in if is sink then turns ∷ others else others

unfoldable pub all_turns : {A B C : Type 0} → (A → Bool) → List (Option (C × List (A × B))) → List B
unfolding turns_to
all_turns is [] = []
all_turns is (none ∷ rest) = all_turns is rest
all_turns is (some (s, received) ∷ rest) = turns_to is received ++ all_turns is rest

module _ (M : Makers) (X : Libraries) (S : StateStore)
    (F : Streams (ℤ × ℤ × Item X.gtfs) (Item X.gtfs))
    (output : M.Source → List (ℤ × ℤ × Item X.gtfs)) (state : Pipeline M → S.State) where
  -- What becomes of each pipeline's `Run`, given what comes out of the sources and what the stores
  -- hold at first.
  unfoldable pub run_all :
      List (Pipeline M) → List (Option (S.State × List (M.Sink × List (Turn (Item X.gtfs)))))
  run_all [] = []
  run_all (p ∷ ps) = run M X S F output p (state p) ∷ run_all ps
