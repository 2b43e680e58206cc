-- ===== src/Pipelines/Run/Delivery.antt =====
-- What the sinks of a pipeline get.
use tpm_go.Prelude.{
  ℕ, zero, suc, ◌≡◌, refl, sym, get_elem?, some, List, [], ◌∷◌, map, length, arith, ◌+◌, ◌<◌,
}
use tpm_go.Prelude.Int.{ℤ}
use tpm_go.StateStore.Interface.{StateStore}
use tpm_go.Pipelines.{Makers, Processor, Pipeline}
use tpm_go.Sinks.Turns.{transmit}
use tpm_go.Pipelines.Items.{Item}
use tpm_go.Pipelines.Flows.{Libraries, through}
use tpm_go.Pipelines.Run.{Streams, StreamsLaws, copies, to_sinks, run}

get_elem?-copies : {A : Type 0} (x : A) (i n : ℕ) → i < n → get_elem? (copies x n) i ≡ some x
get_elem?-copies x i zero h = ground arith
get_elem?-copies x zero (suc n) h = refl
get_elem?-copies x (suc i) (suc n) h = get_elem?-copies x i n (omega arith)

module _ {A B C : Type 0} (to : B → C) where
  -- Every sink drains one of the copies.
  to_sinks-copies :
      (flow : B) (n i : ℕ) (sinks : List A)
      → n ≡ i + length sinks
      → to_sinks to (copies flow n) i sinks ≡ some (map (λ sink. (sink, to flow)) sinks)
  unfolding to_sinks
  to_sinks-copies flow n i [] h = refl
  to_sinks-copies flow n i (sink ∷ sinks) h = ground (
    arith,
    get_elem?-copies flow i n (omega arith),
    to_sinks-copies flow n (suc i) sinks (omega arith),
  )

map-passes :
    {A B C : Type 0} (F : Streams A B) (K : StreamsLaws F) (output : C → List A) (sources : List C)
    → map (λ source. F.pass_through (output source)) sources ≡ map output sources
map-passes F K output [] = refl
map-passes F K output (source ∷ sources) =
    rw (K.passes (output source), map-passes F K output sources) refl

module _ (M : Makers) (X : Libraries) (S : StateStore)
    (F : Streams (ℤ × ℤ × Item X.gtfs) (Item X.gtfs)) (K : StreamsLaws F)
    (output : M.Source → List (ℤ × ℤ × Item X.gtfs)) where
  pub run-merged :
      (p : Pipeline M) (processor : Processor M.Store) (s : S.State)
      → p.processor ≡ some processor
      → run M X S F output p s ≡ (
          let (s', sent) = through X S processor (F.merge (map output p.sources)) s in
          some (s', map (λ sink. (sink, transmit sent)) p.sinks))
  unfolding run
  run-merged p processor s h =
      rw
        (
          h,
          map-passes F K output p.sources,
          K.fans_out,
          sym (K.drains (through X S processor (F.merge (map output p.sources)) s).1),
          to_sinks-copies F.to (through X S processor (F.merge (map output p.sources)) s).1
              (length p.sinks) 0 p.sinks (omega arith),
        )
        refl
