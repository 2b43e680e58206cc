-- ===== src/Processors/Channels/Ends.antt =====
-- The goroutines of a processor come to an end, and what the inlet has got then.
use tpm_go.Prelude.{
  ℕ, ◌≡◌, ◌≤◌, ◌<◌, ◌+◌, ◌*◌, ◌⊎◌, inl, inr, refl, true, false, Option, List, [], ◌++◌, arith,
  Bool-cases, Option-cases, List-cases, length, length-append, ◌∙◌, if◌then◌else◌,
}
use mathlib.Core.List.{append_assoc}
use tpm_go.Prelude.Int.{ℤ}
use tpm_go.Processors.Element.{Element, run_stream}
use tpm_go.Processors.Channels.{
  Channels, turn, Step, reads, sends, finishes, cancels, relays, closes, Run, stay, then_run, start,
}
use tpm_go.Processors.Channels.Kept.{
  one_held, sent_for, sent_for-turn, IsKept, start-IsKept, Run-IsKept,
}

append_all : {B : Type 0} (r h p f l : List B) → r ++ (h ++ p ++ f ++ l) ≡ r ++ h ++ p ++ f ++ l
append_all r h p f l =
    ground (arith, append_assoc r h p, append_assoc r (h ++ p) f, append_assoc r (h ++ p ++ f) l)

module _ {S A B : Type 0} (process : ℤ → ℤ → Option A → S → S × List B) where
  -- How many steps there can still be: a turn for each element, two for each message, and the two
  -- ends.
  abbrev pub steps_left : Channels S A B → ℕ
  steps_left x =
      length x.input
      + 2 * (length x.pending + length (sent_for process x.input x.state))
      + length (one_held x.held)
      + (if x.out_closed then 0 else 1)
      + (if x.inlet_closed then 0 else 1)

  Step-steps_left : {x y : Channels S A B} → Step process x y → steps_left y < steps_left x
  unfolding run_stream
  Step-steps_left {x} (reads e rest idle still next) = ground (
    arith,
    idle,
    next,
    still,
    sent_for-turn process e rest x.state,
    length-append (turn process e x.state).1 (sent_for process rest (turn process e x.state).0),
  )
  Step-steps_left {x} (sends y rest now free) = ground (arith, now, free)
  Step-steps_left {x} (finishes idle still next) = ground (arith, still)
  Step-steps_left {x} (cancels idle still) = ground (arith, still, idle)
  Step-steps_left {x} (relays y here) = ground (arith, here)
  Step-steps_left {x} (closes free done still) = ground (arith, still)

  Run-steps_left :
      {x y : Channels S A B} {n : ℕ} → Run process x n y → n + steps_left y ≤ steps_left x
  Run-steps_left stay = omega arith
  Run-steps_left (then_run step rest) = omega (arith, Step-steps_left step, Run-steps_left rest)

  -- The inlet is closed, or there is a step.
  progress :
      (x : Channels S A B) → (x.inlet_closed ≡ true) ⊎ ((y : Channels S A B) × Step process x y)
  progress x = elim (Bool-cases x.inlet_closed) [
    | inl closed ↦ inl closed
    | inr still ↦ elim (Option-cases x.held) [
      | inr (y, here) ↦ inr (_, relays y here)
      | inl free ↦ elim (Bool-cases x.out_closed) [
        | inl done ↦ inr (_, closes free done still)
        | inr going ↦ elim (List-cases x.pending) [
          | inr (y, rest, now) ↦ inr (_, sends y rest now free)
          | inl idle ↦ elim (List-cases x.input) [
            | inl nothing ↦ inr (_, finishes idle going nothing)
            | inr (e, rest, next) ↦ inr (_, reads e rest idle going next)
          ]
        ]
      ]
    ]
  ]

  -- What the inlet has got is what `doStream` sends for the elements, from the first on, and all
  -- of it where the inlet is closed and the context was not done.
  abbrev pub IsReceived : List B → Channels S A B → Type 0
  IsReceived total x =
      (rest : List B) × (x.received ++ rest ≡ total)
      × (x.inlet_closed ≡ true → x.cancelled ≡ false → rest ≡ [])

  IsKept-IsReceived :
      {total : List B} {x : Channels S A B} → IsKept process total x → IsReceived total x
  unfolding run_stream
  IsKept-IsReceived {total} {x} k = (
    one_held x.held ++ x.pending ++ sent_for process x.input x.state ++ k.lost,
    append_all x.received (one_held x.held) x.pending (sent_for process x.input x.state) k.lost
        ∙ k.all,
    λ closed whole.
        let (free, done) = k.inlet_done closed in
        let (idle, nothing) = k.out_done done in rw (free, idle, nothing, k.none_lost whole) refl,
  )

  -- However the two goroutines take their turns, from channels on which nothing is under way: there
  -- are at most as many steps as there are elements, twice as many as there are messages sent for
  -- them, and two more; until the inlet is closed, there is a step; and what the inlet has got
  -- are messages that the loop of `doStream` sends for the elements, from the first on and in
  -- their order, and all of them where the inlet is closed and the context was not done.
  pub Run-ends :
      (es : List (ℤ × ℤ × Element A)) (s : S) {y : Channels S A B} {n : ℕ}
      → Run process (start es s) n y
      → (n ≤ length es + 2 * length (run_stream process es s).1 + 2)
        × ((y.inlet_closed ≡ true) ⊎ ((z : Channels S A B) × Step process y z))
        × IsReceived (run_stream process es s).1 y
  Run-ends es s {y} run = (
    omega (arith, Run-steps_left run),
    progress y,
    IsKept-IsReceived
        (Run-IsKept process (run_stream process es s).1 run (start-IsKept process es s)),
  )
