-- ===== src/Graphs.antt =====
-- graphs/graph.go: `NewGraph` without options, as main.go calls it. A write to a nil map panics:
-- then there is no result.
pub mod Complete
pub mod Loops
pub mod Running
use tpm_go.Prelude.{String, Option, none, some, List, [], ◌∷◌}
use tpm_go.Prelude.Maps.{lookup, insert, entries}
use tpm_go.Config.{
  SourceConfig, SinkConfig, StateStoreConfig, PipelineConfig, GraphConfig, GoMap, empty_source,
  empty_sink,
}
use tpm_go.Pipelines.{
  Result, made, failed, and_then, Makers, Pipeline, new_source, new_sink, new_state_store,
  new_pipeline,
}

pub record Graph (M : Makers) : Type 0 where
  pub pipelines : List (Pipeline M)
  pub state_stores : List M.Store

-- m[key] = v
abbrev pub put : {A : Type 0} → String → A → GoMap A → Option (GoMap A)
put k v none = none
put k v (some es) = some (some (insert k v es))

abbrev pub connector_source : String → SourceConfig
connector_source id = record empty_source {
  source_type = "connector";
  connector = record { id = id };
}

abbrev pub connector_sink : String → SinkConfig
connector_sink id = record empty_sink { sink_type = "connector"; connector = record { id = id } }

-- The loop over the connectors: a channel, a source and a sink for each.
unfoldable pub add_connectors :
    List (String × Unit {0})
    → List (String × String) × GoMap SourceConfig × GoMap SinkConfig
    → Option (List (String × String) × GoMap SourceConfig × GoMap SinkConfig)
add_connectors [] maps = some maps
add_connectors ((id, c) ∷ rest) (channels, sources, sinks) =
    elim (put id (connector_source id) sources) [
      | none ↦ none
      | some sources' ↦ elim (put id (connector_sink id) sinks) [
        | none ↦ none
        | some sinks' ↦ add_connectors rest (insert id id channels, sources', sinks')
      ]
    ]

-- The loops that make a source or a sink of each configuration.
unfoldable pub make_all :
    {A B : Type 0} → (A → Result B) → List (String × A) → Result (List (String × B))
unfolding and_then
make_all make [] = made []
make_all make ((id, cfg) ∷ rest) =
    and_then (make cfg) (λ x. and_then (make_all make rest) (λ xs. made ((id, x) ∷ xs)))

unfoldable pub make_stores : {A B : Type 0} → (A → B) → List (String × A) → List (String × B)
make_stores make [] = []
make_stores make ((id, cfg) ∷ rest) = (id, make cfg) ∷ make_stores make rest

abbrev pub values : {A : Type 0} → List (String × A) → List A
values [] = []
values ((id, x) ∷ rest) = x ∷ values rest

module _ (M : Makers) where
  open M use {Source, Sink, Store}

  unfoldable pub new_pipelines :
      List (String × Source)
      → List (String × Sink)
      → List (String × Store)
      → List (String × PipelineConfig)
      → Result (List (Pipeline M))
  unfolding and_then new_pipeline
  new_pipelines sources sinks stores [] = made []
  new_pipelines sources sinks stores ((id, cfg) ∷ rest) =
      and_then (new_pipeline M cfg sources sinks stores)
        (λ p. and_then (new_pipelines sources sinks stores rest) (λ ps. made (p ∷ ps)))

  -- From the options on, where the loop over the connectors is done.
  unfoldable pub build :
      GraphConfig
      → List (String × String)
      → GoMap SourceConfig
      → GoMap SinkConfig
      → Result (Graph M)
  unfolding and_then make_all make_stores new_pipelines new_source new_sink new_state_store
  build cfg channels source_configs sink_configs =
      and_then (make_all (new_source M channels) (entries source_configs)) (λ sources.
        and_then (make_all (new_sink M channels) (entries sink_configs)) (λ sinks.
          let stores = make_stores (new_state_store M) (entries cfg.state_stores) in
          and_then (new_pipelines sources sinks stores (entries cfg.pipelines))
            (λ pipelines. made (record { pipelines = pipelines; state_stores = values stores }))))

  abbrev pub build_from :
      GraphConfig
      → Option (List (String × String) × GoMap SourceConfig × GoMap SinkConfig)
      → Option (Result (Graph M))
  unfolding build
  build_from cfg none = none
  build_from cfg (some (channels, sources, sinks)) = some (build cfg channels sources sinks)

  -- None is a panic.
  unfoldable pub new_graph : GraphConfig → Option (Result (Graph M))
  unfolding add_connectors
  new_graph cfg =
      build_from cfg (add_connectors (entries cfg.connectors) ([], cfg.sources, cfg.sinks))
