-- ===== src/Graphs/Running/Shared.antt =====
-- A sink that several pipelines share: `NewPipeline` of pipelines/pipeline.go gives each of them the
-- same sink, and each closes its channel.
use tpm_go.Prelude.{
  ℕ, ◌+◌, ◌≤◌, ◌≡◌, refl, Bool, Bool-cases, inl, inr, true, false, ◌||◌, none, some, List, [], ◌∷◌,
  ◌++◌, map, arith,
}
use tpm_go.Prelude.Int.{ℤ}
use tpm_go.Prelude.Merge.{IsMerge, IsMerged}
use tpm_go.StateStore.Interface.{StateStore}
use tpm_go.Pipelines.{Makers, Processor, Pipeline}
use tpm_go.Sinks.Turns.{Turn, cancelled, closed, other, item, transmit, play}
use tpm_go.Pipelines.Items.{Item}
use tpm_go.Pipelines.Flows.{Libraries, through}
use tpm_go.Pipelines.Run.{Streams, StreamsLaws, run}
use tpm_go.Pipelines.Run.Delivery.{run-merged}
use tpm_go.Graphs.Running.{turns_to, all_turns, run_all}

module _ {A : Type 0} where
  -- How often the channel is closed.
  abbrev one_closing : Turn A → ℕ
  one_closing closed = 1
  one_closing _ = 0

  abbrev closings : List (Turn A) → ℕ
  closings [] = 0
  closings (x ∷ xs) = one_closing x + closings xs

  abbrev total : List (List (Turn A)) → ℕ
  total [] = 0
  total (xs ∷ xss) = closings xs + total xss

  total-append : (xss yss : List (List (Turn A))) → total (xss ++ yss) ≡ total xss + total yss
  total-append [] yss = omega arith
  total-append (xs ∷ xss) yss = let rest = total-append xss yss in omega arith

  closings-IsMerge :
      {xs ys zs : List (Turn A)} → IsMerge xs ys zs → closings zs ≡ closings xs + closings ys
  closings-IsMerge IsMerge.done = omega arith
  closings-IsMerge (IsMerge.left m) = let rest = closings-IsMerge m in omega arith
  closings-IsMerge (IsMerge.right m) = let rest = closings-IsMerge m in omega arith

  closings-IsMerged :
      {xss : List (List (Turn A))} {zs : List (Turn A)} → IsMerged xss zs → closings zs ≡ total xss
  closings-IsMerged IsMerged.none_left = refl
  closings-IsMerged (IsMerged.one_more rest m) =
      let firsts = closings-IsMerge m in let others = closings-IsMerged rest in omega arith

  closings-transmit : (xs : List A) → closings (transmit xs) ≡ 1
  unfolding transmit
  closings-transmit [] = refl
  closings-transmit (x ∷ xs) = let rest = closings-transmit xs in omega arith

  play-closed : (xs : List (Turn A)) → 1 ≤ closings xs → play xs false ≡ none
  unfolding play
  play-closed [] h = absurd (omega arith)
  play-closed (cancelled ∷ xs) h = play-closed xs (omega arith)
  play-closed (closed ∷ xs) h = refl
  play-closed (other ∷ xs) h = refl
  play-closed (item x ∷ xs) h = refl

  play-open : (xs : List (Turn A)) → 2 ≤ closings xs → play xs true ≡ none
  unfolding play
  play-open [] h = absurd (omega arith)
  play-open (cancelled ∷ xs) h = play-open xs (omega arith)
  play-open (closed ∷ xs) h = play-closed xs (omega arith)
  play-open (other ∷ xs) h = play-open xs (omega arith)
  play-open (item x ∷ xs) h = play-open xs (omega arith)

-- One of the sinks is the one that `is` picks.
abbrev pub includes : {A : Type 0} → (A → Bool) → List A → Bool
includes is [] = false
includes is (x ∷ xs) = is x || includes is xs

total-turns_to :
    {A B : Type 0} (is : A → Bool) (sent : List B) (sinks : List A)
    → includes is sinks ≡ true
    → 1 ≤ total (turns_to is (map (λ sink. (sink, transmit sent)) sinks))
unfolding turns_to
total-turns_to is sent [] h = ground (arith, h)
total-turns_to is sent (sink ∷ sinks) h = elim (Bool-cases (is sink)) [
  | inl this ↦ let once = closings-transmit sent in rw this (omega arith)
  | inr that ↦ let others = total-turns_to is sent sinks (rw that at h) in rw that others
]

module _ (M : Makers) (X : Libraries) (S : StateStore)
    (F : Streams (ℤ × ℤ × Item X.gtfs) (Item X.gtfs)) (K : StreamsLaws F)
    (output : M.Source → List (ℤ × ℤ × Item X.gtfs)) (state : Pipeline M → S.State)
    (is : M.Sink → Bool) where
  -- How often the pipelines close the sink's channel.
  abbrev closed_by : List (Pipeline M) → ℕ
  closed_by ps = total (all_turns is (run_all M X S F output state ps))

  closed_by-cons : (p : Pipeline M) (ps : List (Pipeline M)) → closed_by ps ≤ closed_by (p ∷ ps)
  unfolding run_all all_turns
  closed_by-cons p ps =
      elim (run M X S F output p (state p))
        as (λ r.
          (total (all_turns is (run_all M X S F output state ps))
            ≤ total (all_turns is (r ∷ run_all M X S F output state ps)))) [
              | none ↦ omega arith
              | some (s, received) ↦
                  let both =
                    total-append (turns_to is received)
                      (all_turns is (run_all M X S F output state ps)) in
                  omega arith
            ]

  closed_by-append : (ps qs : List (Pipeline M)) → closed_by qs ≤ closed_by (ps ++ qs)
  closed_by-append [] qs = omega arith
  closed_by-append (p ∷ ps) qs =
      let rest = closed_by-append ps qs in let first = closed_by-cons p (ps ++ qs) in omega arith

  closed_by-includes :
      (p : Pipeline M) (x : Processor M.Store) (ps : List (Pipeline M))
      → p.processor ≡ some x
      → includes is p.sinks ≡ true
      → 1 + closed_by ps ≤ closed_by (p ∷ ps)
  unfolding run_all all_turns
  closed_by-includes p x ps made h =
      let sent = (through X S x (F.merge (map output p.sources)) (state p)).1 in
      let once = total-turns_to is sent p.sinks h in
      let both =
        total-append (turns_to is (map (λ sink. (sink, transmit sent)) p.sinks))
          (all_turns is (run_all M X S F output state ps)) in
      rw (run-merged M X S F K output p x (state p) made) (omega arith)

  -- Where the flows are what go-streams documents, and two of a graph's pipelines have a processor
  -- and share a sink: in whatever order the pipelines send to the sink's channel and close it, if
  -- all of them come to their end, there is a send or a close after the channel was closed, and the
  -- program panics.
  pub run_all-shared :
      (before : List (Pipeline M)) (p : Pipeline M) (between : List (Pipeline M)) (q : Pipeline M)
      (after : List (Pipeline M)) (x y : Processor M.Store) (merged : List (Turn (Item X.gtfs)))
      → p.processor ≡ some x
      → q.processor ≡ some y
      → includes is p.sinks ≡ true
      → includes is q.sinks ≡ true
      → IsMerged
          (all_turns is (run_all M X S F output state (before ++ p ∷ (between ++ q ∷ after))))
          merged
      → play merged true ≡ none
  run_all-shared before p between q after x y merged made_p made_q in_p in_q m =
      let n : ℕ = closed_by (before ++ p ∷ (between ++ q ∷ after)) in
      let all : closings merged ≡ n = closings-IsMerged m in
      let a : closed_by (p ∷ (between ++ q ∷ after)) ≤ n =
        closed_by-append before (p ∷ (between ++ q ∷ after)) in
      let b : 1 + closed_by (between ++ q ∷ after) ≤ closed_by (p ∷ (between ++ q ∷ after)) =
        closed_by-includes p x (between ++ q ∷ after) made_p in_p in
      let c : closed_by (q ∷ after) ≤ closed_by (between ++ q ∷ after) =
        closed_by-append between (q ∷ after) in
      let d : 1 + closed_by after ≤ closed_by (q ∷ after) =
        closed_by-includes q y after made_q in_q in
      play-open merged (omega arith)
