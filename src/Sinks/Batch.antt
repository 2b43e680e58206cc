-- ===== src/Sinks/Batch.antt =====
-- The loop `doSink` of sinks/db_sink.go and sinks/parquet_sink.go, which differ in what a batch
-- holds and in the context of the last flush. An input is the case that `select` takes.
pub mod Laws
use tpm_go.Prelude.{ℕ, Bool, true, false, List, [], ◌∷◌, ◌++◌, length, leb, if◌then◌else◌}
use tpm_go.Prelude.Int.{ℤ, pos, leb_ℤ, pos_part}

pub data Input (A : Type 0) : Type 0 where
  cancelled tick closed other : Input A
  item : A → Input A

-- The context that a flush is given: the sink's own, live or cancelled, or a fresh one.
pub data Context : Type 0 where
  live_context cancelled_context background : Context

-- What a run has flushed, in order, and what the batch holds at its end.
pub record Run (A : Type 0) : Type 0 where
  pub flushed : List (Context × List A)
  pub left : List A

-- A size or a duration of the configuration, or its default where it is not positive.
abbrev pub or_default : ℤ → ℤ → ℤ
or_default configured default = if leb_ℤ configured (pos 0) then default else configured

module _ {A : Type 0} where
  abbrev pub after_flush : Context → List A → Run A → Run A
  after_flush c batch run = record run { flushed = (c, batch) ∷ run.flushed }

  -- `if len(batch) > 0 { s.flush(ctx, batch) }`
  abbrev pub flush_some : Context → List A → List (Context × List A)
  flush_some c [] = []
  flush_some c (x ∷ xs) = (c, x ∷ xs) ∷ []

  module _ (last : Context) (max_batch_size : ℕ) where
    unfoldable pub do_sink : List (Input A) → List A → Run A
    do_sink [] batch = record { flushed = []; left = batch }
    do_sink (cancelled ∷ rest) batch = record { flushed = flush_some last batch; left = [] }
    do_sink (closed ∷ rest) batch = record { flushed = []; left = batch }
    do_sink (tick ∷ rest) batch =
        let run = do_sink rest [] in
        record run { flushed = flush_some live_context batch ++ run.flushed }
    do_sink (other ∷ rest) batch = do_sink rest batch
    do_sink (item x ∷ rest) batch =
        let more = batch ++ x ∷ [] in
        let flushed = after_flush live_context more (do_sink rest []) in
        let kept = do_sink rest more in if leb max_batch_size (length more) then flushed else kept
