-- ===== src/Sinks/Database/Rows.antt =====
-- What the database sink writes over all of its flushes, where the events that reach it are of one
-- type, as those of a pipeline are.
use tpm_go.Prelude.{String, ◌≡◌, refl, ap, ◌∙◌, true, Option, List, [], ◌∷◌, ◌++◌, map, arith}
use mathlib.Core.List.{append_assoc, append-nil}
use tpm_go.Prelude.Int.{ℤ, pos, pos_part}
use tpm_go.Events.Timestamp.{TimeOps}
use tpm_go.Events.Message.{Message, stop, dwell_time, travel_time, headway_time}
use tpm_go.Events.Stop.{StopEvent}
use tpm_go.Events.Dwell.{DwellTimeEvent}
use tpm_go.Events.TravelTime.{TravelTimeEvent}
use tpm_go.Events.Headway.{HeadwayTimeEvent}
use tpm_go.Sinks.Batch.{Input, Context, background, or_default, do_sink}
use tpm_go.Sinks.Batch.Laws.{received, ends_cancelled, all_flushed, do_sink-cancelled}
use tpm_go.Sinks.Database.{
  Arg, Statement, Sorted, nothing_sorted, flush, all_args, insert_some, insert_sorted, stop_args,
  dwell_args, travel_args, headway_args, do_database_sink,
}
use tpm_go.Sinks.Database.Inserts.{by_type, flush-by_type}

-- The arguments of statements, one after the other.
abbrev pub args_of : List Statement → List Arg
args_of [] = []
args_of (x ∷ xs) = x.args ++ args_of xs

-- The statements of all flushes of a run.
abbrev pub executed : TimeOps → List (Context × List Message) → List Statement
executed T [] = []
executed T ((c, batch) ∷ rest) = flush T batch ++ executed T rest

args_of-append : (xs ys : List Statement) → args_of (xs ++ ys) ≡ args_of xs ++ args_of ys
args_of-append [] ys = refl
args_of-append (x ∷ xs) ys = simp (args_of-append xs ys, append_assoc)

all_args-append :
    {A : Type 0} (row : A → List Arg) (xs ys : List A)
    → all_args row (xs ++ ys) ≡ all_args row xs ++ all_args row ys
unfolding all_args
all_args-append row [] ys = refl
all_args-append row (x ∷ xs) ys = simp (all_args-append row xs ys, append_assoc)

args_of-insert_some :
    {A : Type 0} (table : String) (cols : List String) (row : A → List Arg) (es : List A)
    → args_of (insert_some table cols row es) ≡ all_args row es
unfolding insert_some
args_of-insert_some table cols row [] = unfold all_args in refl
args_of-insert_some table cols row (e ∷ es) = append-nil (all_args row (e ∷ es))

-- A way to make messages of events of one type, and the arguments that `flush` makes of them.
record IsWritten (T : TimeOps) {E : Type 0} (make : E → Message) (row : E → List Arg) : Type 0 where
  pub args : (es : List E) → args_of (flush T (map make es)) ≡ all_args row es

-- A list of messages of one type in two parts.
module _ {E : Type 0} (make : E → Message) where
  map-split :
      (batch rest : List Message) (es : List E)
      → batch ++ rest ≡ map make es
      → (xs : List E) × (ys : List E) × (es ≡ xs ++ ys)
        × (batch ≡ map make xs)
        × (rest ≡ map make ys)
  map-split [] rest es h = ([], es, refl, refl, h)
  map-split (m ∷ batch) rest [] h = ground arith
  map-split (m ∷ batch) rest (e ∷ es) h =
      let (xs, ys, whole, first, second) = map-split batch rest es (ground arith) in
      (e ∷ xs, ys, ap (λ l. e ∷ l) whole, ground (arith, first), second)

  module _ (T : TimeOps) (row : E → List Arg) (W : IsWritten T make row) where
    executed-rows :
        (flushed : List (Context × List Message)) (es : List E)
        → all_flushed flushed ≡ map make es
        → args_of (executed T flushed) ≡ all_args row es
    executed-rows [] [] h = unfold all_args in refl
    executed-rows [] (e ∷ es) h = ground arith
    executed-rows ((c, batch) ∷ rest) es h =
        let (xs, ys, whole, first, second) = map-split batch (all_flushed rest) es h in
        rw
          (
            args_of-append (flush T batch) (executed T rest),
            executed-rows rest ys second,
            first,
            W.args xs,
            whole,
            all_args-append row xs ys,
          )
          refl

    sink-rows :
        (max_batch_size : ℤ) (inputs : List (Input Message)) (es : List E)
        → received inputs ≡ map make es
        → ends_cancelled inputs ≡ true
        → args_of (executed T (do_database_sink max_batch_size inputs).flushed) ≡ all_args row es
    unfolding do_database_sink
    sink-rows max_batch_size inputs es h ends =
        executed-rows
          (do_sink background (pos_part (or_default max_batch_size (pos 100))) inputs []).flushed es
          (do_sink-cancelled background (pos_part (or_default max_batch_size (pos 100))) inputs []
              ends
            ∙ h)

by_type-stops :
    (es : List (Option StopEvent))
    → by_type (map stop es) ≡ record nothing_sorted { stop_events = es }
by_type-stops [] = refl
by_type-stops (e ∷ es) =
    ap (λ (p : Sorted). record p { stop_events = e ∷ p.stop_events }) (by_type-stops es)

by_type-dwells :
    (es : List (Option DwellTimeEvent))
    → by_type (map dwell_time es) ≡ record nothing_sorted { dwell_events = es }
by_type-dwells [] = refl
by_type-dwells (e ∷ es) =
    ap (λ (p : Sorted). record p { dwell_events = e ∷ p.dwell_events }) (by_type-dwells es)

by_type-travels :
    (es : List (Option TravelTimeEvent))
    → by_type (map travel_time es) ≡ record nothing_sorted { travel_events = es }
by_type-travels [] = refl
by_type-travels (e ∷ es) =
    ap (λ (p : Sorted). record p { travel_events = e ∷ p.travel_events }) (by_type-travels es)

by_type-headways :
    (es : List (Option HeadwayTimeEvent))
    → by_type (map headway_time es) ≡ record nothing_sorted { headway_events = es }
by_type-headways [] = refl
by_type-headways (e ∷ es) =
    ap (λ (p : Sorted). record p { headway_events = e ∷ p.headway_events }) (by_type-headways es)

module _ (T : TimeOps) where
  args_of-insert_sorted :
      (p : Sorted)
      → args_of (insert_sorted T p)
        ≡ all_args (stop_args T) p.stop_events
          ++ (all_args (dwell_args T) p.dwell_events
              ++ (all_args (travel_args T) p.travel_events
                  ++ all_args (headway_args T) p.headway_events))
  unfolding insert_sorted
  args_of-insert_sorted p = simp (args_of-append, args_of-insert_some)

  -- The arguments of a flush are those of its batch, sorted.
  args_of-flush :
      (batch : List Message) (p : Sorted)
      → by_type batch ≡ p
      → args_of (flush T batch)
        ≡ all_args (stop_args T) p.stop_events
          ++ (all_args (dwell_args T) p.dwell_events
              ++ (all_args (travel_args T) p.travel_events
                  ++ all_args (headway_args T) p.headway_events))
  args_of-flush batch p h =
      ap args_of (flush-by_type T batch ∙ ap (insert_sorted T) h) ∙ args_of-insert_sorted p

  stops-IsWritten : IsWritten T stop (stop_args T)
  unfolding all_args
  stops-IsWritten = record {
    args = λ es.
        args_of-flush (map stop es) (record nothing_sorted { stop_events = es }) (by_type-stops es)
        ∙ append-nil (all_args (stop_args T) es);
  }

  dwells-IsWritten : IsWritten T dwell_time (dwell_args T)
  unfolding all_args
  dwells-IsWritten = record {
    args = λ es.
        args_of-flush (map dwell_time es) (record nothing_sorted { dwell_events = es })
          (by_type-dwells es)
        ∙ append-nil (all_args (dwell_args T) es);
  }

  travels-IsWritten : IsWritten T travel_time (travel_args T)
  unfolding all_args
  travels-IsWritten = record {
    args = λ es.
        args_of-flush (map travel_time es) (record nothing_sorted { travel_events = es })
          (by_type-travels es)
        ∙ append-nil (all_args (travel_args T) es);
  }

  headways-IsWritten : IsWritten T headway_time (headway_args T)
  unfolding all_args
  headways-IsWritten = record {
    args = λ es.
        args_of-flush (map headway_time es) (record nothing_sorted { headway_events = es })
          (by_type-headways es);
  }

-- Events of one type, as the messages that reach the sink, and their rows.
pub data Events : Type 0 where
  stops : List (Option StopEvent) → Events
  dwells : List (Option DwellTimeEvent) → Events
  travels : List (Option TravelTimeEvent) → Events
  headways : List (Option HeadwayTimeEvent) → Events

abbrev pub messages_of : Events → List Message
messages_of (stops es) = map stop es
messages_of (dwells es) = map dwell_time es
messages_of (travels es) = map travel_time es
messages_of (headways es) = map headway_time es

abbrev pub rows_of : TimeOps → Events → List Arg
rows_of T (stops es) = all_args (stop_args T) es
rows_of T (dwells es) = all_args (dwell_args T) es
rows_of T (travels es) = all_args (travel_args T) es
rows_of T (headways es) = all_args (headway_args T) es

-- Where the events that the sink receives until its context is cancelled are of one type, the
-- statements that its flushes execute, whenever they flush, have together the arguments of every
-- event's row, once and in the order of the events, and no others.
pub do_database_sink-rows :
    (T : TimeOps) (max_batch_size : ℤ) (inputs : List (Input Message)) (es : Events)
    → received inputs ≡ messages_of es
    → ends_cancelled inputs ≡ true
    → args_of (executed T (do_database_sink max_batch_size inputs).flushed) ≡ rows_of T es
do_database_sink-rows T n inputs (stops es) =
    sink-rows stop T (stop_args T) (stops-IsWritten T) n inputs es
do_database_sink-rows T n inputs (dwells es) =
    sink-rows dwell_time T (dwell_args T) (dwells-IsWritten T) n inputs es
do_database_sink-rows T n inputs (travels es) =
    sink-rows travel_time T (travel_args T) (travels-IsWritten T) n inputs es
do_database_sink-rows T n inputs (headways es) =
    sink-rows headway_time T (headway_args T) (headways-IsWritten T) n inputs es
