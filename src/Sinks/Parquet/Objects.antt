-- ===== src/Sinks/Parquet/Objects.antt =====
-- What sinks/parquet_sink.go leaves in the bucket when it is shut down.
use tpm_go.Prelude.{
  ℕ, ◌≡◌, ◌<◌, refl, ap, String, Option, none, some, List, [], ◌∷◌, map, length, arith,
}
use tpm_go.Prelude.Int.{ℤ, pos, pos_part}
use tpm_go.Events.Timestamp.{TimeOps}
use tpm_go.Events.Message.{Message}
use tpm_go.Sinks.Batch.{item, cancelled_context, or_default, flush_some}
use tpm_go.Sinks.Batch.Laws.{items_then_cancelled, do_sink-items_then_cancelled}
use tpm_go.Sinks.Parquet.{
  EventRow, Calendar, Client, Settings, object_key, put_rows, flush, write_flushes, row_input,
  row_inputs, do_parquet_sink, to_event_row,
}

-- What the client documents: a request whose context is cancelled is not sent.
pub record ClientLaws (S : Client) : Type 1 where
  pub put_object-cancelled :
      (key body : String) (bucket : S.Bucket)
      → S.put_object cancelled_context key body bucket ≡ bucket

length-map {ℓ κ} :
    {A : Type ℓ} {B : Type κ} (f : A → B) (xs : List A) → length (map f xs) ≡ length xs
length-map f [] = refl
length-map f (x ∷ xs) = omega (arith, length-map f xs)

abbrev pub limit : Settings → ℕ
limit settings = pos_part (or_default settings.max_batch_size (pos 10000))

module _ (T : TimeOps) (C : Calendar) (S : Client) (settings : Settings) where
  put_rows-cancelled :
      ClientLaws S
      → (t : ℤ) (o : Option String) (bucket : S.Bucket)
      → put_rows T C S settings cancelled_context t o bucket ≡ bucket
  unfolding put_rows
  put_rows-cancelled laws t none bucket = refl
  put_rows-cancelled laws t (some b) bucket =
      laws.put_object-cancelled (object_key C settings.prefix settings.event_type t) b bucket

  last_flush :
      ClientLaws S
      → (now : ℕ → ℤ) (rows : List EventRow) (bucket : S.Bucket)
      → write_flushes T C S settings now (flush_some cancelled_context rows) bucket ≡ bucket
  unfolding write_flushes flush
  last_flush laws now [] bucket = refl
  last_flush laws now (r ∷ rows) bucket =
      put_rows-cancelled laws (now 0) (S.serialize_rows (r ∷ rows)) bucket

  rows_in :
      (es : List Message)
      → row_inputs T C S settings (items_then_cancelled es)
        ≡ items_then_cancelled (map (to_event_row T) es)
  unfolding row_inputs row_input
  rows_in [] = refl
  rows_in (e ∷ es) = ap (λ l. item (to_event_row T e) ∷ l) (rows_in es)

  -- Where the client sends no request whose context is cancelled, events that do not fill the
  -- batch before the sink's context is cancelled are lost: the loop's flushes leave the bucket as
  -- it was.
  pub do_parquet_sink-cancelled :
      ClientLaws S
      → (now : ℕ → ℤ) (es : List Message) (bucket : S.Bucket) → length es < limit settings
      → write_flushes T C S settings now
          (do_parquet_sink T C S settings (items_then_cancelled es)).flushed
          bucket
        ≡ bucket
  unfolding do_parquet_sink
  do_parquet_sink-cancelled laws now es bucket h =
      rw
        (
          rows_in es,
          do_sink-items_then_cancelled cancelled_context (limit settings) (map (to_event_row T) es)
              [] (rw (length-map (to_event_row T) es) h),
        )
        (last_flush laws now (map (to_event_row T) es) bucket)
