-- ===== src/Sinks/Batch/Laws.antt =====
-- What `doSink` of sinks/db_sink.go and sinks/parquet_sink.go does with what it receives.
use tpm_go.Prelude.{
  ℕ, ◌≡◌, ◌≤◌, ◌<◌, ◌∙◌, refl, ap, sym, Bool, true, false, List, [], ◌∷◌, ◌++◌, length,
  length-append, All, All-append, arith, leb, Bool-cases, inl, inr,
}
use mathlib.Core.List.{append-nil, append_assoc}
use tpm_go.Sinks.Batch.{
  Input, cancelled, tick, closed, other, item, Context, live_context, flush_some, do_sink,
}

lt→leb : (a b : ℕ) → b < a → leb a b ≡ false
lt→leb a b h = ground arith

module _ {A : Type 0} where
  -- What the loop receives until it returns.
  abbrev pub received : List (Input A) → List A
  received [] = []
  received (cancelled ∷ rest) = []
  received (closed ∷ rest) = []
  received (tick ∷ rest) = received rest
  received (other ∷ rest) = received rest
  received (item x ∷ rest) = x ∷ received rest

  abbrev pub all_flushed : List (Context × List A) → List A
  all_flushed [] = []
  all_flushed ((c, batch) ∷ rest) = batch ++ all_flushed rest

  all_flushed-append :
      (xs ys : List (Context × List A)) → all_flushed (xs ++ ys) ≡ all_flushed xs ++ all_flushed ys
  all_flushed-append [] ys = refl
  all_flushed-append ((c, b) ∷ xs) ys = simp (all_flushed-append xs ys, append_assoc)

  all_flushed-flush_some : (c : Context) (b : List A) → all_flushed (flush_some c b) ≡ b
  all_flushed-flush_some c [] = refl
  all_flushed-flush_some c (x ∷ xs) = append-nil (x ∷ xs)

  module _ (last : Context) (max_batch_size : ℕ) where
    -- Whatever comes in, what is flushed and then what the batch still holds are, in order, what
    -- the batch held at the start and what was received until the loop returned.
    pub do_sink-received :
        (inputs : List (Input A)) (batch : List A)
        → all_flushed (do_sink last max_batch_size inputs batch).flushed
            ++ (do_sink last max_batch_size inputs batch).left
          ≡ batch ++ received inputs
    unfolding do_sink
    do_sink-received [] batch = simp append-nil
    do_sink-received (cancelled ∷ rest) batch = simp (all_flushed-flush_some, append-nil)
    do_sink-received (closed ∷ rest) batch = simp append-nil
    do_sink-received (tick ∷ rest) batch =
        simp (all_flushed-append, all_flushed-flush_some, append_assoc, do_sink-received rest [])
    do_sink-received (other ∷ rest) batch = do_sink-received rest batch
    do_sink-received (item x ∷ rest) batch =
        elim (Bool-cases (leb max_batch_size (length (batch ++ x ∷ [])))) [
          | inl full ↦ rw full (simp (append_assoc, do_sink-received rest []))
          | inr room ↦ rw room (
              do_sink-received rest (batch ++ x ∷ []) ∙ append_assoc batch (x ∷ []) (received rest))
        ]

  -- A flush that has something to write, and no more than the limit.
  abbrev pub FitsLimit : ℕ → Context × List A → Type 0
  FitsLimit max (c, batch) = (0 < length batch) × (length batch ≤ max)

  -- The loop ends because the context is cancelled.
  abbrev pub ends_cancelled : List (Input A) → Bool
  ends_cancelled [] = false
  ends_cancelled (cancelled ∷ rest) = true
  ends_cancelled (closed ∷ rest) = false
  ends_cancelled (tick ∷ rest) = ends_cancelled rest
  ends_cancelled (other ∷ rest) = ends_cancelled rest
  ends_cancelled (item x ∷ rest) = ends_cancelled rest

  abbrev pub items_then_closed : List A → List (Input A)
  items_then_closed [] = closed ∷ []
  items_then_closed (x ∷ xs) = item x ∷ items_then_closed xs

  abbrev pub items_then_cancelled : List A → List (Input A)
  items_then_cancelled [] = cancelled ∷ []
  items_then_cancelled (x ∷ xs) = item x ∷ items_then_cancelled xs

  flush_some-FitsLimit :
      (max : ℕ) (c : Context) (b : List A) → length b < max → All (FitsLimit max) (flush_some c b)
  flush_some-FitsLimit max c [] h = tt
  flush_some-FitsLimit max c (x ∷ xs) h = omega arith

  module _ (last : Context) (max_batch_size : ℕ) where
    -- From a batch below the limit, every flush has at least one item and at most the limit, and
    -- what the batch holds at the end is below the limit.
    pub do_sink-FitsLimit :
        (inputs : List (Input A)) (batch : List A)
        → length batch < max_batch_size
        → All (FitsLimit max_batch_size) (do_sink last max_batch_size inputs batch).flushed
          × (length (do_sink last max_batch_size inputs batch).left < max_batch_size)
    unfolding do_sink
    do_sink-FitsLimit [] batch h = (tt, h)
    do_sink-FitsLimit (cancelled ∷ rest) batch h =
        (flush_some-FitsLimit max_batch_size last batch h, omega arith)
    do_sink-FitsLimit (closed ∷ rest) batch h = (tt, h)
    do_sink-FitsLimit (tick ∷ rest) batch h =
        let (fit, below) = do_sink-FitsLimit rest [] (omega arith) in
        (
          All-append (FitsLimit max_batch_size) (flush_some live_context batch)
              (do_sink last max_batch_size rest []).flushed
              (flush_some-FitsLimit max_batch_size live_context batch h) fit,
          below,
        )
    do_sink-FitsLimit (other ∷ rest) batch h = do_sink-FitsLimit rest batch h
    do_sink-FitsLimit (item x ∷ rest) batch h =
        elim (Bool-cases (leb max_batch_size (length (batch ++ x ∷ [])))) [
          | inl full ↦
              let (fit, below) = do_sink-FitsLimit rest [] (omega arith) in
              rw full ((omega (arith, length-append batch (x ∷ [])), fit), below)
          | inr room ↦ rw room (do_sink-FitsLimit rest (batch ++ x ∷ []) (ground arith))
        ]

    nothing_left :
        (inputs : List (Input A)) (batch : List A)
        → ends_cancelled inputs ≡ true
        → (do_sink last max_batch_size inputs batch).left ≡ []
    unfolding do_sink
    nothing_left [] batch h = cc
    nothing_left (cancelled ∷ rest) batch h = refl
    nothing_left (closed ∷ rest) batch h = cc
    nothing_left (tick ∷ rest) batch h = nothing_left rest [] h
    nothing_left (other ∷ rest) batch h = nothing_left rest batch h
    nothing_left (item x ∷ rest) batch h =
        elim (Bool-cases (leb max_batch_size (length (batch ++ x ∷ [])))) [
          | inl full ↦ rw full (nothing_left rest [] h)
          | inr room ↦ rw room (nothing_left rest (batch ++ x ∷ []) h)
        ]

    -- Where the loop ends because the context is cancelled, everything that was received is
    -- flushed, once and in order.
    pub do_sink-cancelled :
        (inputs : List (Input A)) (batch : List A)
        → ends_cancelled inputs ≡ true
        → all_flushed (do_sink last max_batch_size inputs batch).flushed ≡ batch ++ received inputs
    do_sink-cancelled inputs batch h =
        sym (append-nil (all_flushed (do_sink last max_batch_size inputs batch).flushed))
        ∙ (ap (λ l. all_flushed (do_sink last max_batch_size inputs batch).flushed ++ l)
              (sym (nothing_left inputs batch h))
            ∙ do_sink-received last max_batch_size inputs batch)

    -- Where the channel is closed after items that do not fill the batch, none of them is ever
    -- flushed.
    pub do_sink-closed :
        (items batch : List A)
        → length (batch ++ items) < max_batch_size
        → do_sink last max_batch_size (items_then_closed items) batch
          ≡ record { flushed = []; left = batch ++ items }
    unfolding do_sink
    do_sink-closed [] batch h = simp append-nil
    do_sink-closed (x ∷ items) batch h =
        let regroup : (batch ++ x ∷ []) ++ items ≡ batch ++ x ∷ items =
          append_assoc batch (x ∷ []) items in
        let shorter : length (batch ++ x ∷ []) < max_batch_size =
          omega (arith, length-append batch (x ∷ []), length-append batch (x ∷ items)) in
        rw (lt→leb max_batch_size (length (batch ++ x ∷ [])) shorter) (
          do_sink-closed items (batch ++ x ∷ []) (rw regroup h)
          ∙ ap (λ l. record { flushed = []; left = l }) regroup)

    -- Where the context is cancelled after items that do not fill the batch, the batch and the
    -- items are all that is flushed, with the context of the last flush.
    pub do_sink-items_then_cancelled :
        (items batch : List A)
        → length (batch ++ items) < max_batch_size
        → (do_sink last max_batch_size (items_then_cancelled items) batch).flushed
          ≡ flush_some last (batch ++ items)
    unfolding do_sink
    do_sink-items_then_cancelled [] batch h = simp append-nil
    do_sink-items_then_cancelled (x ∷ items) batch h =
        let regroup : (batch ++ x ∷ []) ++ items ≡ batch ++ x ∷ items =
          append_assoc batch (x ∷ []) items in
        let shorter : length (batch ++ x ∷ []) < max_batch_size =
          omega (arith, length-append batch (x ∷ []), length-append batch (x ∷ items)) in
        rw (lt→leb max_batch_size (length (batch ++ x ∷ [])) shorter) (
          do_sink-items_then_cancelled items (batch ++ x ∷ []) (rw regroup h)
          ∙ ap (λ l. flush_some last l) regroup)
