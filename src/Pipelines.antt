-- ===== src/Pipelines.antt =====
-- pipelines/pipeline.go, with the constructors that it and graphs/graph.go call.
mod Parts
pub mod Items
pub mod Flows
pub mod Run
unfoldable pub use Parts.*
use tpm_go.Prelude.{not, ◌||◌, ◌++◌, Bool, String, Option, none, some, List, [], ◌∷◌, if◌then◌else◌}
use tpm_go.Prelude.Int.{ℤ, pos}
use tpm_go.Events.Timestamp.{hour}
use tpm_go.Prelude.Text.{◌==◌}
use tpm_go.Prelude.Maps.{lookup}
use tpm_go.Config.{
  HttpSourceConfig, RedisConfig, SseSinkConfig, SourceConfig, SinkConfig, RedisStateStoreConfig,
  StateStoreConfig, PipelineConfig, ParquetSinkConfig,
}

module _ (M : Makers) where
  open M use {Source, Sink, Store}

  pub record Pipeline : Type 0 where
    pub id : String
    pub agency_id : String
    pub pipeline_type : String
    pub sources : List Source
    pub state_store : Option Store
    pub sinks : List Sink
    pub processor : Option (Processor Store)

-- `if !found { return nil, err }`
abbrev pub or_fail : {A : Type 0} → GraphError → Option A → Result A
or_fail e none = failed e
or_fail e (some x) = made x

-- The loops of `NewPipeline` that look ids up.
unfoldable pub find_all :
    {A : Type 0} → (String → GraphError) → List (String × A) → List String → Result (List A)
unfolding and_then
find_all not_found m [] = made []
find_all not_found m (id ∷ ids) =
    and_then (or_fail (not_found id) (lookup id m))
      (λ x. and_then (find_all not_found m ids) (λ xs. made (x ∷ xs)))

module _ (M : Makers) where
  open M use {Source, Sink, Store}

  unfoldable pub new_pipeline :
      PipelineConfig
      → List (String × Source)
      → List (String × Sink)
      → List (String × Store)
      → Result (Pipeline M)
  unfolding find_all new_processor and_then
  new_pipeline cfg sources sinks stores =
      and_then (find_all (source_not_found cfg.id) sources cfg.sources) (λ found_sources.
        and_then (find_all (sink_not_found cfg.id) sinks cfg.sinks) (λ found_sinks.
          let store = lookup cfg.state_store stores in
          made (record {
            id = cfg.id;
            agency_id = cfg.agency_id;
            pipeline_type = cfg.pipeline_type;
            sources = found_sources;
            state_store = store;
            sinks = found_sinks;
            processor = new_processor M cfg.agency_id cfg.pipeline_type store;
          })))
