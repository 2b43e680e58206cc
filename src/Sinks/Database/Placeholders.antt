-- ===== src/Sinks/Database/Placeholders.antt =====
-- The placeholders that `buildInsert` of sinks/db_sink.go writes, beside the arguments that the
-- insert functions collect.
use tpm_go.Prelude.{
  ℕ, zero, suc, ◌+◌, ◌*◌, ◌≡◌, refl, ap, String, List, [], ◌∷◌, length, length-append, map, All,
  All-append, arith,
}
use tpm_go.Prelude.Decimal.{format_uint}
use tpm_go.Prelude.Text.{◌<>◌}
use tpm_go.Events.Timestamp.{TimeOps}
use tpm_go.Events.Message.{Message}
use tpm_go.Sinks.Database
use tpm_go.Sinks.Database.{
  Arg, Statement, Sorted, nothing_sorted, sort_events, placeholder, row_text, join, row_numbers,
  numbers, all_args, insert_some, build_insert, insert_sorted, flush, stop_columns, dwell_columns,
  travel_columns, headway_columns, stop_args, dwell_args, travel_args, headway_args,
}

-- The placeholders of `n` arguments, from the number `start` on.
abbrev pub markers : ℕ → ℕ → List String
markers start zero = []
markers start (suc n) = ("$" <> format_uint start) ∷ markers (start + 1) n

-- Texts with commas between them.
abbrev pub commas : List String → String
commas [] = ""
commas (x ∷ []) = x
commas (x ∷ y ∷ ys) = x <> ", " <> commas (y ∷ ys)

-- Rows of placeholders, each of which goes on where the row before it ends.
abbrev pub rows_of : ℕ → ℕ → ℕ → List String
rows_of start width zero = []
rows_of start width (suc n) =
    ("(" <> commas (markers start width) <> ")") ∷ rows_of (start + width) width n

join-commas : (xs : List String) → join ", " xs ≡ commas xs
unfolding join
join-commas [] = refl
join-commas (x ∷ []) = refl
join-commas (x ∷ y ∷ ys) = ap (λ l. x <> ", " <> l) (join-commas (y ∷ ys))

placeholder-markers : (next cols : ℕ) → map placeholder (row_numbers next cols) ≡ markers next cols
unfolding row_numbers placeholder
placeholder-markers next zero = refl
placeholder-markers next (suc cols) =
    ap (λ l. ("$" <> format_uint next) ∷ l) (placeholder-markers (next + 1) cols)

next_row : (i c : ℕ) → (i + 1) * c + 1 ≡ i * c + 1 + c
next_row i c = grind arith

suc_rows : (n c : ℕ) → suc n * c ≡ c + n * c
suc_rows n c = grind arith

numbers-rows_of :
    (n_cols i n_rows : ℕ)
    → map row_text (numbers n_cols i n_rows) ≡ rows_of (i * n_cols + 1) n_cols n_rows
unfolding numbers row_text
numbers-rows_of n_cols i zero = refl
numbers-rows_of n_cols i (suc n) =
    rw
      (
        join-commas (map placeholder (row_numbers (i * n_cols + 1) n_cols)),
        placeholder-markers (i * n_cols + 1) n_cols,
        numbers-rows_of n_cols (i + 1) n,
        next_row i n_cols,
      )
      refl

all_args-length {ℓ} :
    {A : Type ℓ} (row : A → List Arg) (width : ℕ)
    → ((e : A) → length (row e) ≡ width)
    → (es : List A) → length (all_args row es) ≡ length es * width
unfolding all_args
all_args-length row width h [] = omega arith
all_args-length row width h (e ∷ es) =
    rw
      (
        suc_rows (length es) width,
        length-append (row e) (all_args row es),
        h e,
        all_args-length row width h es,
      )
      refl

-- The text is that of an insert of some rows, whose placeholders are `$1`, `$2` and so on, without
-- a gap or a repetition, and there are as many of them as there are arguments.
abbrev pub IsNumbered : Statement → Type 0
IsNumbered s =
    (table : String) × (cols : List String) × (n_rows : ℕ) × (s.query
      ≡ "INSERT INTO "
        <> table
        <> " ("
        <> commas cols
        <> ") VALUES "
        <> commas (rows_of 1 (length cols) n_rows))
    × (length s.args ≡ n_rows * length cols)

build_insert-rows_of :
    (table : String) (cols : List String) (n_rows : ℕ)
    → build_insert table cols n_rows
      ≡ "INSERT INTO "
        <> table
        <> " ("
        <> commas cols
        <> ") VALUES "
        <> commas (rows_of 1 (length cols) n_rows)
unfolding build_insert
build_insert-rows_of table cols n_rows =
    let start : 0 * length cols + 1 ≡ 1 = omega arith in
    rw
      (
        join-commas cols,
        join-commas (map row_text (numbers (length cols) 0 n_rows)),
        numbers-rows_of (length cols) 0 n_rows,
        start,
      )
      refl

insert_some-IsNumbered {ℓ} :
    {A : Type ℓ} (table : String) (cols : List String) (row : A → List Arg)
    → ((e : A) → length (row e) ≡ length cols)
    → (es : List A) → All IsNumbered (insert_some table cols row es)
unfolding insert_some
insert_some-IsNumbered table cols row h [] = tt
insert_some-IsNumbered table cols row h (e ∷ es) = (
  (
    table,
    cols,
    length (e ∷ es),
    build_insert-rows_of table cols (length (e ∷ es)),
    all_args-length row (length cols) h (e ∷ es),
  ),
  tt,
)

module _ (T : TimeOps) where
  insert_sorted-IsNumbered : (p : Sorted) → All IsNumbered (insert_sorted T p)
  unfolding insert_sorted stop_args dwell_args travel_args headway_args Database.common_args
  insert_sorted-IsNumbered p =
      All-append IsNumbered (insert_some "stop_events" stop_columns (stop_args T) p.stop_events) _
        (insert_some-IsNumbered "stop_events" stop_columns (stop_args T) (λ e. refl) p.stop_events)
        (All-append IsNumbered
          (insert_some "dwell_time_events" dwell_columns (dwell_args T) p.dwell_events) _
          (insert_some-IsNumbered "dwell_time_events" dwell_columns (dwell_args T) (λ e. refl)
            p.dwell_events)
          (All-append IsNumbered
            (insert_some "travel_time_events" travel_columns (travel_args T) p.travel_events) _
            (insert_some-IsNumbered "travel_time_events" travel_columns (travel_args T) (λ e. refl)
              p.travel_events)
            (insert_some-IsNumbered "headway_time_events" headway_columns (headway_args T)
              (λ e. refl) p.headway_events)))

  -- Every statement that `flush` executes is the text of an insert of some rows, whose placeholders
  -- are `$1`, `$2` and so on, row after row, with as many arguments as placeholders: for any batch
  -- of events.
  pub flush-IsNumbered : (batch : List Message) → All IsNumbered (flush T batch)
  unfolding flush
  flush-IsNumbered batch = insert_sorted-IsNumbered (sort_events batch nothing_sorted)
