-- ===== src/Processors/Channels.antt =====
-- The two goroutines of a processor, `doStream` and `transmit`, between its channel `in`, its
-- unbuffered channel `out` and the channel of the inlet behind it, as in
-- processors/transit/headway_events/headway_event_processor.go. The inlet is always ready to
-- receive.
pub mod Kept
pub mod Ends
use tpm_go.Prelude.{ℕ, suc, ◌≡◌, Bool, true, false, Option, none, some, List, [], ◌∷◌, ◌++◌}
use tpm_go.Prelude.Int.{ℤ}
use tpm_go.Processors.Element.{Element, bytes, message, other}

pub record Channels (S A B : Type 0) : Type 0 where
  -- What is still to come on `in`, which is closed then.
  pub input : List (ℤ × ℤ × Element A)
  pub state : S
  -- What the turn of `doStream` has still to send to `out`.
  pub pending : List B
  pub out_closed : Bool
  -- What `transmit` has received and not yet sent on.
  pub held : Option B
  pub received : List B
  pub inlet_closed : Bool
  pub cancelled : Bool

module _ {S A B : Type 0} (process : ℤ → ℤ → Option A → S → S × List B) where
  unfoldable pub turn : ℤ × ℤ × Element A → S → S × List B
  turn (t, u, message event) s = process t u event s
  turn (t, u, bytes b) s = (s, [])
  turn (t, u, other) s = (s, [])

  pub data Step (x : Channels S A B) : Channels S A B → Type 0 where
    reads :
        (e : ℤ × ℤ × Element A) (rest : List (ℤ × ℤ × Element A))
        → x.pending ≡ []
        → x.out_closed ≡ false
        → x.input ≡ e ∷ rest
        → Step x
            (record x { input = rest; state = (turn e x.state).0; pending = (turn e x.state).1 })
    -- `out <-`, where `transmit` is ready to receive
    sends :
        (y : B) (rest : List B)
        → x.pending ≡ y ∷ rest
        → x.held ≡ none
        → Step x (record x { pending = rest; held = some y })
    -- `defer close(out)`, where `in` is closed
    finishes :
        x.pending ≡ []
        → x.out_closed ≡ false
        → x.input ≡ []
        → Step x (record x { out_closed = true })
    -- and where the context is done
    cancels :
        x.pending ≡ []
        → x.out_closed ≡ false
        → Step x (record x { input = []; out_closed = true; cancelled = true })
    -- `inlet.In() <- element`
    relays :
        (y : B)
        → x.held ≡ some y
        → Step x (record x { held = none; received = x.received ++ y ∷ [] })
    -- `close(inlet.In())`, after the range over `out`
    closes :
        x.held ≡ none
        → x.out_closed ≡ true
        → x.inlet_closed ≡ false
        → Step x (record x { inlet_closed = true })

  -- A run of so many steps.
  pub data Run : Channels S A B → ℕ → Channels S A B → Type 0 where
    stay : {x : Channels S A B} → Run x 0 x
    then_run : {x y z : Channels S A B} {n : ℕ} → Step x y → Run y n z → Run x (suc n) z

abbrev pub start : {S A B : Type 0} → List (ℤ × ℤ × Element A) → S → Channels S A B
start es s = record {
  input = es;
  state = s;
  pending = [];
  out_closed = false;
  held = none;
  received = [];
  inlet_closed = false;
  cancelled = false;
}
