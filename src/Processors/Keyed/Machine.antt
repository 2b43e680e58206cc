-- ===== src/Processors/Keyed/Machine.antt =====
-- What a processor of derived events computes for one key, without a store: a machine that remembers
-- one stop event, for an hour.
use tpm_go.Prelude.{
  ◌≡◌, refl, Bool-cases, inl, inr, String, Option, none, some, List, [], ◌∷◌, ◌++◌, arith,
  if◌then◌else◌, ap, sym, subst, ◌∙◌,
}
use tpm_go.Prelude.Int.{ℤ, ◌+ℤ◌, ltb_ℤ}
use tpm_go.Prelude.Text.{◌==◌, eq_iff}
use tpm_go.Prelude.Merge.{IsMerge}
use tpm_go.Events.Timestamp.{hour}
use tpm_go.Events.Stop.{StopEvent}
use tpm_go.Events.Message.{ProtoMessage, stop}
use tpm_go.StateStore.Interface.{until}
use tpm_go.Processors.Element.{Element, bytes, message, other, run_stream}
use tpm_go.Processors.Keyed.{KeyedLaws}
use tpm_go.Processors.Keyed.Shards.{share, others, run_stream-shared}

-- What a turn does with the memory.
pub data Change : Type 0 where
  keeps stores forgets : Change

-- The event that is remembered, and until when.
abbrev pub Memory : Type 0
Memory = Option (StopEvent × ℤ)

abbrev pub remembered : ℤ → Memory → Option StopEvent
remembered t none = none
remembered t (some (a, end)) = if ltb_ℤ end t then none else some a

abbrev pub next : Change → ℤ → StopEvent → Memory → Memory
next keeps u e c = c
next stores u e c = some (e, u +ℤ hour)
next forgets u e c = none

-- What a store shows with this memory.
abbrev pub shown : ℤ → Memory → Option ProtoMessage
shown w none = none
shown w (some (a, end)) = until end w (some (stop (some a)))

-- The stop events of the key, with the two instants of each turn.
unfoldable pub events_of :
    (StopEvent → String) → String → List (ℤ × ℤ × Element StopEvent) → List (ℤ × ℤ × StopEvent)
events_of key_of k [] = []
events_of key_of k ((t, u, message (some e)) ∷ es) =
    let rest = events_of key_of k es in if key_of e == k then (t, u, e) ∷ rest else rest
events_of key_of k ((t, u, message none) ∷ es) = events_of key_of k es
events_of key_of k ((t, u, bytes b) ∷ es) = events_of key_of k es
events_of key_of k ((t, u, other) ∷ es) = events_of key_of k es

module _ {B : Type 0} (react : Option StopEvent → StopEvent → List B × Change) where
  unfoldable pub machine : Memory → List (ℤ × ℤ × StopEvent) → List B
  machine c [] = []
  machine c ((t, u, e) ∷ es) =
      let (sent, change) = react (remembered t c) e in
      let later = machine (next change u e c) es in sent ++ later

  module _ {S : Type 0} (live : ℤ → String → S → Option ProtoMessage)
      (process : ℤ → ℤ → Option StopEvent → S → S × List B) (key_of : StopEvent → String) where
    abbrev pub Remembers : String → Memory → S → Type 0
    Remembers k c s = (w : ℤ) → live w k s ≡ shown w c

    -- A turn does what the machine does.
    pub record MachineLaws : Type 0 where
      pub sends :
          (t u : ℤ) (e : StopEvent) (s : S) (c : Memory)
          → Remembers (key_of e) c s
          → (process t u (some e) s).1 ≡ (react (remembered t c) e).0
      pub remembers :
          (t u : ℤ) (e : StopEvent) (s : S) (c : Memory)
          → Remembers (key_of e) c s
          → Remembers
              (key_of e)
              (next (react (remembered t c) e).1 u e c)
              (process t u (some e) s).0

    module _ (K : KeyedLaws live process key_of) (M : MachineLaws) (k : String) where
      run_stream-machine :
          (es : List (ℤ × ℤ × Element StopEvent)) (s : S) (c : Memory)
          → Remembers k c s
          → (run_stream process (share key_of (λ j. j == k) es) s).1
            ≡ machine c (events_of key_of k es)
      unfolding run_stream share machine events_of
      run_stream-machine [] s c memory = refl
      run_stream-machine ((t, u, bytes b) ∷ es) s c memory = run_stream-machine es s c memory
      run_stream-machine ((t, u, other) ∷ es) s c memory = run_stream-machine es s c memory
      run_stream-machine ((t, u, message none) ∷ es) s c memory = run_stream-machine es s c memory
      run_stream-machine ((t, u, message (some e)) ∷ es) s c memory =
          elim (Bool-cases (key_of e == k)) [
            | inl at_k ↦
                let is_k : key_of e ≡ k = ground (arith, eq_iff (key_of e) k) in
                let here : Remembers (key_of e) c s = rw is_k memory in
                let after : Remembers k (next (react (remembered t c) e).1 u e c)
                    (process t u (some e) s).0 =
                  λ w.
                    ap (λ j. live w j (process t u (some e) s).0) (sym is_k)
                    ∙ M.remembers t u e s c here w in
                rw
                  (
                    at_k,
                    M.sends t u e s c here,
                    run_stream-machine es (process t u (some e) s).0
                        (next (react (remembered t c) e).1 u e c) after,
                  )
                  refl
            | inr elsewhere ↦ rw elsewhere (run_stream-machine es s c memory)
          ]

      pub run_stream-IsMerge :
          (es : List (ℤ × ℤ × Element StopEvent)) (s : S) (c : Memory)
          → Remembers k c s
          → IsMerge
              (machine c (events_of key_of k es))
              (run_stream process (share key_of (others (λ j. j == k)) es) s).1
              (run_stream process es s).1
      run_stream-IsMerge es s c memory =
          subst
            (λ l.
              IsMerge l (run_stream process (share key_of (others (λ j. j == k)) es) s).1
                (run_stream process es s).1)
            (run_stream-machine es s c memory)
            (run_stream-shared process live key_of K (λ j. j == k) es s s s (λ j h w. refl)
              (λ j h w. refl))
