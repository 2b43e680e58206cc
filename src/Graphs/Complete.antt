-- ===== src/Graphs/Complete.antt =====
-- `NewGraph` of graphs/graph.go, for the configurations that config/config.go accepts.
use tpm_go.Prelude.{
  ◌≡◌, ◌≢◌, ◌⊎◌, inl, inr, refl, ap, ◌∙◌, String, none, some, List, [], ◌∷◌, All, All-map, arith,
  map, Bool-cases,
}
use tpm_go.Prelude.Text.{◌==◌, eq_iff, ==→ne}
use tpm_go.Prelude.Maps.{entries}
use tpm_go.Config.{SourceConfig, SinkConfig, PipelineConfig, GraphConfig, GoMap, GoMap, validate}
use tpm_go.Config.Valid.{IsValid, IsValidSource, validate-IsValid}
use tpm_go.Pipelines.{
  new_http_source, made, and_then, Makers, Pipeline, new_source, new_sink, new_state_store,
}
use tpm_go.Graphs.{build_from, Graph, add_connectors, make_stores, values, build, new_graph}
use tpm_go.Graphs.Loops.{
  SourceStarts, SinkStarts, make_all-made, add_connectors-some, new_pipelines-made,
}

module _ (M : Makers) where
  open M use {Source, Sink, Store}

  -- A source that does not poll a URL starts.
  abbrev pub OtherStarts : String × SourceConfig → Type 0
  OtherStarts (id, c) = c.source_type ≢ "http" → SourceStarts M (id, c)

  -- A source that polls a URL starts at a valid interval.
  IsValidSource-SourceStarts :
      (id : String) (c : SourceConfig)
      → IsValidSource M.parse_duration (id, c)
      → OtherStarts (id, c)
      → SourceStarts M (id, c)
  unfolding new_source new_http_source
  IsValidSource-SourceStarts id c v other = elim (Bool-cases (c.source_type == "http")) [
    | inl polls ↦
        let (_, _, readable) = v ((eq_iff c.source_type "http").0 polls) in
        λ channels. (M.http_source c.http, rw (polls, readable) refl)
    | inr rest ↦ other (==→ne c.source_type "http" rest)
  ]

  All-SourceStarts :
      (es : List (String × SourceConfig))
      → All (IsValidSource M.parse_duration) es
      → All OtherStarts es
      → All (SourceStarts M) es
  All-SourceStarts [] v h = tt
  All-SourceStarts ((id, c) ∷ es) v h =
      (IsValidSource-SourceStarts id c v.0 h.0, All-SourceStarts es v.1 h.1)

  valid_graph :
      (cfg : GraphConfig) (es : List (String × SourceConfig)) (fs : List (String × SinkConfig))
      → IsValid M.parse_duration cfg
      → cfg.sources ≡ some es
      → cfg.sinks ≡ some fs
      → All (SourceStarts M) es
      → All (SinkStarts M) fs
      → (graph : Graph M) × (new_graph M cfg ≡ some (made graph))
        × (map (λ (p : Pipeline M). p.id) graph.pipelines
            ≡ map (λ (e : String × PipelineConfig). e.1.id) (entries cfg.pipelines))
        × All (λ (p : Pipeline M). p.processor ≢ none) graph.pipelines
  unfolding new_graph build and_then
  valid_graph cfg es fs valid e_sources e_sinks he hf =
      let (channels, es', fs', e, he', hf', ce, cf) =
        add_connectors-some M (entries cfg.connectors) [] es fs he hf in
      let (sources, e1, same1) = make_all-made (new_source M channels) es' (
        All-map (SourceStarts M)
          (λ (c : String × SourceConfig). (s : Source) × (new_source M channels c.1 ≡ made s))
          (λ c h. h channels) es' he') in
      let (sinks, e2, same2) = make_all-made (new_sink M channels) fs' (
        All-map (SinkStarts M)
          (λ (c : String × SinkConfig). (s : Sink) × (new_sink M channels c.1 ≡ made s))
          (λ c h. h channels) fs' hf') in
      let stores = make_stores (new_state_store M) (entries cfg.state_stores) in
      let (ps, e3, same, some_processors) =
        new_pipelines-made M cfg (entries cfg.pipelines) sources sinks stores valid.1
          (λ k d. same1 k ∙ ce k (rw e_sources at d)) (λ k d. same2 k ∙ cf k (rw e_sinks at d)) in
      (
        record { pipelines = ps; state_stores = values stores },
        rw (e_sources, e_sinks, e) (ap some (rw (e1, e2, e3) refl)),
        same,
        some_processors,
      )

  -- Where `Validate` accepts a configuration whose maps of sources and of sinks are not nil, and
  -- every configured sink and every source of another type than http starts, `NewGraph` neither
  -- panics nor fails; the graph has the configured pipelines, in order, each with a processor.
  pub new_graph-validate :
      (cfg : GraphConfig) (es : List (String × SourceConfig)) (fs : List (String × SinkConfig))
      → validate M.parse_duration cfg ≡ none
      → cfg.sources ≡ some es
      → cfg.sinks ≡ some fs
      → All OtherStarts es
      → All (SinkStarts M) fs
      → (graph : Graph M) × (new_graph M cfg ≡ some (made graph))
        × (map (λ (p : Pipeline M). p.id) graph.pipelines
            ≡ map (λ (e : String × PipelineConfig). e.1.id) (entries cfg.pipelines))
        × All (λ (p : Pipeline M). p.processor ≢ none) graph.pipelines
  new_graph-validate cfg es fs v e_sources e_sinks others hf =
      let valid = (validate-IsValid M.parse_duration cfg).0 v in
      valid_graph cfg es fs valid e_sources e_sinks
        (All-SourceStarts es (rw e_sources at valid.0) others) hf

  stuck_connector :
      (id : String) (c : Unit {0}) (cs : List (String × Unit {0})) (sources : GoMap SourceConfig)
      (sinks : GoMap SinkConfig)
      → (sources ≡ none) ⊎ (sinks ≡ none)
      → add_connectors ((id, c) ∷ cs) ([], sources, sinks) ≡ none
  unfolding add_connectors
  stuck_connector id c cs none sinks nil = refl
  stuck_connector id c cs (some es) none nil = refl
  stuck_connector id c cs (some es) (some fs) nil = ground (arith, nil)

  -- Where a configuration has a connector, and its map of sources or its map of sinks is nil,
  -- `NewGraph` panics.
  pub new_graph-nil :
      (cfg : GraphConfig) (c : String × Unit {0}) (cs : List (String × Unit {0}))
      → entries cfg.connectors ≡ c ∷ cs
      → (cfg.sources ≡ none) ⊎ (cfg.sinks ≡ none)
      → new_graph M cfg ≡ none
  unfolding new_graph build_from
  new_graph-nil cfg (id, c) cs e nil =
      let stuck : add_connectors (entries cfg.connectors) ([], cfg.sources, cfg.sinks) ≡ none =
        rw e (stuck_connector id c cs cfg.sources cfg.sinks nil) in
      rw stuck refl
