-- ===== src/Pipelines/Run.antt =====
-- `Run` of pipelines/pipeline.go. What it builds the flows with is the library go-streams.
pub mod Delivery
pub mod Order
use tpm_go.Prelude.{ℕ, zero, suc, ◌≡◌, get_elem?, Option, none, some, List, [], ◌∷◌, map, length}
use tpm_go.Prelude.Int.{ℤ}
use mathlib.Core.Option
use tpm_go.Prelude.Merge.{IsMerged}
use tpm_go.StateStore.Interface.{StateStore}
use tpm_go.Pipelines.{Makers, Processor, Pipeline}
use tpm_go.Sinks.Turns.{Turn, transmit}
use tpm_go.Pipelines.Items.{Item}
use tpm_go.Pipelines.Flows.{Libraries, Items, through}

-- The flows of the package flow, by the elements that come out of them.
pub record Streams (A B : Type 0) : Type 0 where
  -- NewPassThrough, and Merge
  pub pass_through : List A → List A
  pub merge : List (List A) → List A
  -- FanOut
  pub fan_out : List B → ℕ → List (List B)
  -- what `To` does to the channel of a sink
  pub to : List B → List (Turn B)

abbrev pub copies : {A : Type 0} → A → ℕ → List A
copies x zero = []
copies x (suc n) = x ∷ copies x n

-- A PassThrough retransmits its elements, Merge makes one flow of several, the flows of a FanOut are
-- identical, and `To` sends the elements to the sink and then closes the sink's channel.
pub record StreamsLaws {A B : Type 0} (F : Streams A B) : Type 0 where
  pub passes : (xs : List A) → F.pass_through xs ≡ xs
  pub merges : (xss : List (List A)) → IsMerged xss (F.merge xss)
  pub fans_out : (ys : List B) (n : ℕ) → F.fan_out ys n ≡ copies ys n
  pub drains : (ys : List B) → F.to ys ≡ transmit ys

-- The loop over the sinks from the index `i`: each sink with what `To` of its flow does to it. None
-- is an index out of range, and a panic.
unfoldable pub to_sinks : {A B C : Type 0} → (B → C) → List B → ℕ → List A → Option (List (A × C))
to_sinks to flows i [] = some []
to_sinks to flows i (sink ∷ sinks) = elim (get_elem? flows i) [
  | none ↦ none
  | some flow ↦ elim (to_sinks to flows (suc i) sinks) [
    | none ↦ none
    | some rest ↦ some ((sink, to flow) ∷ rest)
  ]
]

module _ (M : Makers) (X : Libraries) (S : StateStore)
    (F : Streams (ℤ × ℤ × Item X.gtfs) (Item X.gtfs))
    -- What comes out of each source, with the instants of the processor's turns.
    (output : M.Source → List (ℤ × ℤ × Item X.gtfs)) where
  -- From the merged flow on. None is a panic: a nil processor has no channels.
  unfoldable pub process_and_fan_out :
      Option (Processor M.Store)
      → List M.Sink
      → List (ℤ × ℤ × Item X.gtfs)
      → S.State
      → Option (S.State × List (M.Sink × List (Turn (Item X.gtfs))))
  unfolding to_sinks
  process_and_fan_out none sinks merged s = none
  process_and_fan_out (some processor) sinks merged s =
      let (s', sent) = through X S processor merged s in
      Option.map (λ received. (s', received))
        (to_sinks F.to (F.fan_out sent (length sinks)) 0 sinks)

  -- What is done to the channel of each sink, and the store after it, where the sources come to an
  -- end. A sink that is in several pipelines has one channel: Graphs.Running puts together what all
  -- of them do to it.
  unfoldable pub run :
      Pipeline M → S.State → Option (S.State × List (M.Sink × List (Turn (Item X.gtfs))))
  unfolding process_and_fan_out
  run p =
      process_and_fan_out p.processor p.sinks
        (F.merge (map (λ source. F.pass_through (output source)) p.sources))
