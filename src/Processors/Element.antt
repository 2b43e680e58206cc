-- ===== src/Processors/Element.antt =====
-- What a processor reads from its channel `in`, of type `any`: the cases that the type switch of
-- its `doStream` tells apart, where `A` is the message type that it processes. A pointer may be
-- nil. The channel's end and the end of the context are the end of the list of elements.
use tpm_go.Prelude.{ℕ, Option, none, some, List, [], ◌∷◌, ◌++◌, All, All-append}
use tpm_go.Prelude.Int.{ℤ}
use tpm_go.Events.Stop.{EventType, StopEvent}
use tpm_go.Events.Message.{ProtoMessage, stop}

pub data Element (A : Type 0) : Type 0 where
  bytes : List ℕ → Element A
  message : Option A → Element A
  other : Element A

-- `state.(*pb.StopEvent)`: none where the assertion fails, or the pointer is nil.
abbrev pub as_stop_event : ProtoMessage → Option StopEvent
as_stop_event (some (stop e)) = e
as_stop_event _ = none

-- What `func() proto.Message { return &pb.StopEvent{} }` makes.
abbrev pub new_stop_event : ProtoMessage
new_stop_event =
    some (stop (some (record { attributes = none; stop_event_type = EventType.unknown })))

-- The element's message, if it is one, has the property.
abbrev pub HasMessage : {A : Type 0} → (Option A → Type 0) → ℤ × ℤ × Element A → Type 0
HasMessage Q (t, u, message event) = Q event
HasMessage Q (t, u, bytes b) = Unit
HasMessage Q (t, u, other) = Unit

-- The loop of `doStream`, over the elements with the two instants of each turn, where `process`
-- gets the messages of its type and the rest is passed over.
module _ {S A B : Type 0} (process : ℤ → ℤ → Option A → S → S × List B) where
  unfoldable pub run_stream : List (ℤ × ℤ × Element A) → S → S × List B
  run_stream [] s = (s, [])
  run_stream ((t, u, message event) ∷ rest) s =
      let (s', sent) = process t u event s in
      let (s'', later) = run_stream rest s' in (s'', sent ++ later)
  run_stream ((t, u, bytes b) ∷ rest) s = run_stream rest s
  run_stream ((t, u, other) ∷ rest) s = run_stream rest s

  pub All-run_stream :
      (P : B → Type 0)
      → ((t u : ℤ) (event : Option A) (s : S) → All P (process t u event s).1)
      → (es : List (ℤ × ℤ × Element A)) (s : S) → All P (run_stream es s).1
  unfolding run_stream
  All-run_stream P each [] s = tt
  All-run_stream P each ((t, u, message event) ∷ rest) s =
      let (s', sent) = process t u event s in
      All-append P sent (run_stream rest s').1 (each t u event s) (All-run_stream P each rest s')
  All-run_stream P each ((t, u, bytes b) ∷ rest) s = All-run_stream P each rest s
  All-run_stream P each ((t, u, other) ∷ rest) s = All-run_stream P each rest s

  -- An invariant of the state, where the messages have a property: it is kept, and what is sent
  -- has a property.
  pub run_stream-keeps :
      (I : S → Type 0) (Q : Option A → Type 0) (P : B → Type 0)
      → ((t u : ℤ) (event : Option A) (s : S)
          → Q event
          → I s
          → I (process t u event s).0 × All P (process t u event s).1)
      → (es : List (ℤ × ℤ × Element A)) (s : S) → All (HasMessage Q) es
      → I s
      → I (run_stream es s).0 × All P (run_stream es s).1
  unfolding run_stream
  run_stream-keeps I Q P each [] s h i = (i, tt)
  run_stream-keeps I Q P each ((t, u, message event) ∷ rest) s h i =
      let (now, sent) = each t u event s h.0 i in
      let (later, others) = run_stream-keeps I Q P each rest (process t u event s).0 h.1 now in
      (
        later,
        All-append P (process t u event s).1 (run_stream rest (process t u event s).0).1 sent
            others,
      )
  run_stream-keeps I Q P each ((t, u, bytes b) ∷ rest) s h i =
      run_stream-keeps I Q P each rest s h.1 i
  run_stream-keeps I Q P each ((t, u, other) ∷ rest) s h i =
      run_stream-keeps I Q P each rest s h.1 i
