-- ===== src/Config/Valid.antt =====
-- What `Validate` of config/config.go promises.
use tpm_go.Prelude.{
  ◌≡◌, ◌≢◌, ◌↔◌, ◌⊎◌, refl, inl, inr, sym, subst, ◌||◌, Bool, true, false, String, Option, none,
  some, List, [], ◌∷◌, All, arith, if◌then◌else◌, Bool-cases,
}
use tpm_go.Prelude.Text.{◌==◌, eq_iff}
use tpm_go.Prelude.Maps.{has, entries}
use tpm_go.Config.{
  ConfigError, or_else, invalid_type, source_required, sink_required, unknown_source, unknown_sink,
  SourceConfig, PipelineConfig, GraphConfig, first_error, is_valid_type, is_known_source,
  is_known_sink, is_empty, check_source, check_references, check_pipeline, validate,
}

-- One of the six types of pipelines.
pub data IsPipelineType : String → Type 0 where
  feed_message_type : IsPipelineType "feed_message"
  vehicle_position_type : IsPipelineType "vehicle_position"
  stop_event_type : IsPipelineType "stop_event"
  dwell_event_type : IsPipelineType "dwell_event"
  headway_event_type : IsPipelineType "headway_event"
  travel_time_type : IsPipelineType "travel_time"

-- A source of the type http has a URL and an interval that can be read.
abbrev pub IsValidSource : (String → Bool) → String × SourceConfig → Type 0
IsValidSource parse_duration (id, src) =
    src.source_type ≡ "http"
    → (src.http.url ≢ "") × (src.http.interval ≢ "") × (parse_duration src.http.interval ≡ true)

abbrev pub Defines :
    {A B : Type 0} → Option (List (String × A)) → Option (List (String × B)) → String → Type 0
Defines m connectors id = (has id (entries m) ≡ true) ⊎ (has id (entries connectors) ≡ true)

-- A pipeline has a type, and sources and sinks that the configuration defines.
abbrev pub IsValidPipeline : GraphConfig → String × PipelineConfig → Type 0
IsValidPipeline g (id, p) =
    IsPipelineType p.pipeline_type
    × (p.sources ≢ [])
    × (p.sinks ≢ [])
    × All (Defines g.sources g.connectors) p.sources
    × All (Defines g.sinks g.connectors) p.sinks

abbrev pub IsValid : (String → Bool) → GraphConfig → Type 0
IsValid parse_duration g =
    All (IsValidSource parse_duration) (entries g.sources)
    × All (IsValidPipeline g) (entries g.pipelines)

or_else-none : (a b : Option ConfigError) → (or_else a b ≡ none) ↔ ((a ≡ none) × (b ≡ none))
or_else-none none b = ground arith
or_else-none (some e) b = ground arith

first_error-All {ℓ κ} :
    {A : Type ℓ} (check : A → Option ConfigError) (P : A → Type κ)
    → ((x : A) → (check x ≡ none) ↔ P x)
    → (xs : List A) → (first_error check xs ≡ none) ↔ All P xs
unfolding first_error
first_error-All check P h [] = (λ _. tt, λ _. refl)
first_error-All check P h (x ∷ xs) =
    let both = or_else-none (check x) (first_error check xs) in
    let rest = first_error-All check P h xs in
    (λ r. let (a, b) = both.0 r in ((h x).0 a, rest.0 b), λ a. both.1 ((h x).1 a.0, rest.1 a.1))

check_source-IsValidSource :
    (parse_duration : String → Bool) (s : String × SourceConfig)
    → (check_source parse_duration s ≡ none) ↔ IsValidSource parse_duration s
unfolding check_source
check_source-IsValidSource parse_duration (id, src) = (
  λ h t. ground (
    arith,
    eq_iff src.source_type "http",
    eq_iff src.http.url "",
    eq_iff src.http.interval "",
    t,
    h,
  ),
  λ v. ground (
    arith,
    eq_iff src.source_type "http",
    eq_iff src.http.url "",
    eq_iff src.http.interval "",
    v,
  ),
)

is_known-Defines :
    (a b : Bool) (e : ConfigError)
    → ((if a || b then none else some e) ≡ none) ↔ ((a ≡ true) ⊎ (b ≡ true))
is_known-Defines a b e = ground arith

check_references-All :
    (g : GraphConfig) (id : String) (p : PipelineConfig)
    → (check_references g id p ≡ none) ↔ (
        All (Defines g.sources g.connectors) p.sources × All (Defines g.sinks g.connectors) p.sinks)
unfolding check_references is_known_source is_known_sink
check_references-All g id p =
    let sources =
      first_error-All (λ s. if is_known_source g s then none else some (unknown_source id s))
        (Defines g.sources g.connectors)
        (λ s.
          is_known-Defines (has s (entries g.sources)) (has s (entries g.connectors))
            (unknown_source id s))
        p.sources in
    let sinks =
      first_error-All (λ s. if is_known_sink g s then none else some (unknown_sink id s))
        (Defines g.sinks g.connectors)
        (λ s.
          is_known-Defines (has s (entries g.sinks)) (has s (entries g.connectors))
            (unknown_sink id s))
        p.sinks in
    let both =
      or_else-none
        (first_error (λ s. if is_known_source g s then none else some (unknown_source id s))
          p.sources)
        (first_error (λ s. if is_known_sink g s then none else some (unknown_sink id s)) p.sinks) in
    (
      λ h. let (a, b) = both.0 h in (sources.0 a, sinks.0 b),
      λ v. both.1 (sources.1 v.0, sinks.1 v.1),
    )

-- One of the tests, or a later one.
one_of :
    (t lit : String) (rest : Bool)
    → IsPipelineType lit
    → (rest ≡ true → IsPipelineType t)
    → ((t == lit) || rest) ≡ true
    → IsPipelineType t
one_of t lit rest p later h = elim (Bool-cases (t == lit)) [
  | inl e ↦ subst IsPipelineType (sym ((eq_iff t lit).0 e)) p
  | inr e ↦ later (rw e at h)
]

is_valid_type-IsPipelineType : (t : String) → (is_valid_type t ≡ true) ↔ IsPipelineType t
unfolding is_valid_type
is_valid_type-IsPipelineType t = (
  one_of t "feed_message" _ feed_message_type (
      one_of t "vehicle_position" _ vehicle_position_type (
        one_of t "stop_event" _ stop_event_type (
          one_of t "dwell_event" _ dwell_event_type (
            one_of t "headway_event" _ headway_event_type
              (λ h. subst IsPipelineType (sym ((eq_iff t "travel_time").0 h)) travel_time_type))))),
  λ p. elim p as (λ t p. is_valid_type t ≡ true) [
    | feed_message_type ↦ refl
    | vehicle_position_type ↦ refl
    | stop_event_type ↦ refl
    | dwell_event_type ↦ refl
    | headway_event_type ↦ refl
    | travel_time_type ↦ refl
  ],
)

is_empty-ne : (xs : List String) → (is_empty xs ≡ false) ↔ (xs ≢ [])
is_empty-ne [] = ground arith
is_empty-ne (x ∷ xs) = ground arith

-- The first three tests of a pipeline, and what follows them.
guards :
    (a b c : Bool) (e f g : ConfigError) (next : Option ConfigError)
    → ((if a then if b then some f else if c then some g else next else some e) ≡ none)
      ↔ ((a ≡ true) × (b ≡ false) × (c ≡ false) × (next ≡ none))
guards a b c e f g next = ground arith

check_pipeline-IsValidPipeline :
    (g : GraphConfig) (p : String × PipelineConfig)
    → (check_pipeline g p ≡ none) ↔ IsValidPipeline g p
unfolding check_pipeline
check_pipeline-IsValidPipeline g (id, p) =
    let kind = is_valid_type-IsPipelineType p.pipeline_type in
    let references = check_references-All g id p in
    let some_source = is_empty-ne p.sources in
    let some_sink = is_empty-ne p.sinks in
    let all_of = guards (is_valid_type p.pipeline_type) (is_empty p.sources) (is_empty p.sinks) in
    let tests =
      all_of (invalid_type id p.pipeline_type) (source_required id) (sink_required id)
        (check_references g id p) in
    (
      λ h.
          let (a, b, c, d) = tests.0 h in
          (kind.0 a, some_source.0 b, some_sink.0 c, (references.0 d).0, (references.0 d).1),
      λ v. tests.1 (kind.1 v.0, some_source.1 v.1, some_sink.1 v.2, references.1 (v.3, v.4)),
    )

-- `Validate` returns nil exactly at a valid configuration: every HTTP source has a URL and an
-- interval that can be read, and every pipeline has one of the six types, at least one source and
-- one sink, and only sources and sinks that the configuration or its connectors define.
pub validate-IsValid :
    (parse_duration : String → Bool) (g : GraphConfig)
    → (validate parse_duration g ≡ none) ↔ IsValid parse_duration g
unfolding validate
validate-IsValid parse_duration g =
    let sources =
      first_error-All (check_source parse_duration) (IsValidSource parse_duration)
        (check_source-IsValidSource parse_duration) (entries g.sources) in
    let pipelines =
      first_error-All (check_pipeline g) (IsValidPipeline g) (check_pipeline-IsValidPipeline g)
        (entries g.pipelines) in
    let both =
      or_else-none (first_error (check_source parse_duration) (entries g.sources))
        (first_error (check_pipeline g) (entries g.pipelines)) in
    (
      λ h. let (a, b) = both.0 h in (sources.0 a, pipelines.0 b),
      λ v. both.1 (sources.1 v.0, pipelines.1 v.1),
    )
