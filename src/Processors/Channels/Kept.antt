-- ===== src/Processors/Channels/Kept.antt =====
-- What the goroutines of a processor keep.
use tpm_go.Prelude.{ℕ, ◌≡◌, refl, true, false, Option, none, some, List, [], ◌∷◌, ◌++◌, arith}
use mathlib.Core.List.{append_assoc, append-nil}
use tpm_go.Prelude.Int.{ℤ}
use tpm_go.Processors.Element.{Element, bytes, message, other, run_stream}
use tpm_go.Processors.Channels.{
  Channels, turn, Step, reads, sends, finishes, cancels, relays, closes, Run, stay, then_run, start,
}

abbrev pub one_held : {B : Type 0} → Option B → List B
one_held none = []
one_held (some y) = y ∷ []

module _ {S A B : Type 0} (process : ℤ → ℤ → Option A → S → S × List B) where
  -- What is sent for the elements.
  abbrev pub sent_for : List (ℤ × ℤ × Element A) → S → List B
  sent_for es s = (run_stream process es s).1

  pub sent_for-turn :
      (e : ℤ × ℤ × Element A) (es : List (ℤ × ℤ × Element A)) (s : S)
      → sent_for (e ∷ es) s ≡ (turn process e s).1 ++ sent_for es (turn process e s).0
  unfolding turn run_stream
  sent_for-turn (t, u, message event) es s = refl
  sent_for-turn (t, u, bytes b) es s = refl
  sent_for-turn (t, u, other) es s = refl

  -- Everything that is sent for the elements is at its place on the way, but for the end that the
  -- context cuts off.
  pub record IsKept (total : List B) (x : Channels S A B) : Type 0 where
    pub lost : List B
    pub all : x.received ++ one_held x.held ++ x.pending ++ sent_for x.input x.state ++ lost ≡ total
    pub none_lost : x.cancelled ≡ false → lost ≡ []
    pub out_done : x.out_closed ≡ true → (x.pending ≡ []) × (x.input ≡ [])
    pub inlet_done : x.inlet_closed ≡ true → (x.held ≡ none) × (x.out_closed ≡ true)

  pub start-IsKept : (es : List (ℤ × ℤ × Element A)) (s : S) → IsKept (sent_for es s) (start es s)
  start-IsKept es s = record {
    lost = [];
    all = append-nil (sent_for es s);
    none_lost = λ h. refl;
    out_done = λ h. cc h;
    inlet_done = λ h. cc h;
  }

  Step-IsKept :
      (total : List B) {x y : Channels S A B} → Step process x y → IsKept total x → IsKept total y
  unfolding run_stream
  Step-IsKept total {x} (reads e rest idle still next) k = record {
    lost = k.lost;
    all = ground (
      arith,
      k.all,
      sent_for-turn e rest x.state,
      append-nil (x.received ++ one_held x.held),
      append_assoc (x.received ++ one_held x.held) (turn process e x.state).1
          (sent_for rest (turn process e x.state).0),
    );
    none_lost = k.none_lost;
    out_done = λ h. cc (h, still);
    inlet_done = k.inlet_done;
  }
  Step-IsKept total {x} (sends y rest now free) k = record {
    lost = k.lost;
    all = ground (arith, k.all, append-nil x.received, append_assoc (x.received) (y ∷ []) rest);
    none_lost = k.none_lost;
    out_done = λ h. ground (arith, k.out_done);
    inlet_done = λ h. ground (arith, k.inlet_done, k.out_done);
  }
  Step-IsKept total {x} (finishes idle still next) k = record {
    lost = k.lost;
    all = k.all;
    none_lost = k.none_lost;
    out_done = λ h. (idle, next);
    inlet_done = λ h. ground (arith, k.inlet_done);
  }
  Step-IsKept total {x} (cancels idle still) k = record {
    lost = sent_for x.input x.state ++ k.lost;
    all = ground (
      arith,
      k.all,
      append-nil (x.received ++ one_held x.held ++ x.pending),
      append_assoc (x.received ++ one_held x.held ++ x.pending) (sent_for x.input x.state) k.lost,
    );
    none_lost = λ h. cc h;
    out_done = λ h. (idle, refl);
    inlet_done = λ h. ground (arith, k.inlet_done);
  }
  Step-IsKept total {x} (relays y here) k = record {
    lost = k.lost;
    all = ground (arith, k.all, append-nil (x.received ++ y ∷ []));
    none_lost = k.none_lost;
    out_done = k.out_done;
    inlet_done = λ h. ground (arith, k.inlet_done);
  }
  Step-IsKept total {x} (closes free done still) k = record {
    lost = k.lost;
    all = k.all;
    none_lost = k.none_lost;
    out_done = k.out_done;
    inlet_done = λ h. (free, done);
  }

  pub Run-IsKept :
      (total : List B) {x y : Channels S A B} {n : ℕ}
      → Run process x n y
      → IsKept total x
      → IsKept total y
  Run-IsKept total stay k = k
  Run-IsKept total (then_run step rest) k = Run-IsKept total rest (Step-IsKept total step k)
