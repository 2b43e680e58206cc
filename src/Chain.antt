-- ===== src/Chain.antt =====
-- The processors of processors/transit in a row, from an agency's feed to the derived events, as
-- the pipelines of config/configs/default.yaml connect them.
pub mod Facts
pub mod Stops
pub mod Stored
pub mod Derived
pub mod Items
pub mod Flows
pub mod Feed
pub mod Agencies
use tpm_go.Prelude.{List, [], ◌∷◌}
use tpm_go.Prelude.Int.{ℤ}
use tpm_go.StateStore.Interface.{StateStore}
use tpm_go.Pipelines.{Processor}
use tpm_go.Pipelines.Items.{Item}
use tpm_go.Pipelines.Flows.{Libraries, through}

-- The items that a connector carries from one pipeline to the next, each with the two instants of
-- its turn there. Items for which there is no turn are not read.
abbrev pub deliver : {A : Type 0} → List (ℤ × ℤ) → List A → List (ℤ × ℤ × A)
deliver [] xs = []
deliver ((t, u) ∷ turns) [] = []
deliver ((t, u) ∷ turns) (x ∷ xs) = (t, u, x) ∷ deliver turns xs

-- A pipeline's processor, what its store holds at first, and the instants of its turns.
pub record Stage (S : StateStore) (Store : Type 0) : Type 0 where
  pub processor : Processor Store
  pub state : S.State
  pub turns : List (ℤ × ℤ)

module _ (X : Libraries) (S : StateStore) (Store : Type 0) where
  -- What comes out of the last of the pipelines.
  unfoldable pub in_a_row : List (Stage S Store) → List (Item X.gtfs) → List (Item X.gtfs)
  in_a_row [] xs = xs
  in_a_row (stage ∷ stages) xs =
      in_a_row stages (through X S stage.processor (deliver stage.turns xs) stage.state).1
