-- ===== src/Graphs/Loops.antt =====
-- The loops of `NewGraph` in graphs/graph.go, where every id is known and every source and sink
-- starts.
use tpm_go.Prelude.{
  ◌≡◌, ◌≢◌, ◌⊎◌, inl, inr, refl, ap, true, ◌||◌, String, Option, none, some, List, [], ◌∷◌, All,
  All-map, arith, map, Bool-cases,
}
use tpm_go.Prelude.Text.{◌==◌}
use tpm_go.Prelude.Maps.{lookup, has, insert, has-insert, lookup-has, All-insert}
use tpm_go.Config.{SourceConfig, SinkConfig, PipelineConfig, GraphConfig}
use tpm_go.Config.Valid.{IsPipelineType, IsValidPipeline, Defines}
use tpm_go.Pipelines.{
  GraphError, Result, made, and_then, Makers, Pipeline, Processor, new_processor,
  new_stop_event_processor, new_dwell_event_processor, new_headway_event_processor,
  new_travel_time_event_processor, new_source, new_sink, find_all, new_pipeline, source_not_found,
  sink_not_found,
}
use tpm_go.Graphs.{connector_source, connector_sink, add_connectors, make_all, new_pipelines}

find_all-made :
    {A : Type 0} (not_found : String → GraphError) (m : List (String × A)) (ids : List String)
    → All (λ id. has id m ≡ true) ids
    → (xs : List A) × (find_all not_found m ids ≡ made xs)
unfolding find_all and_then
find_all-made not_found m [] h = ([], refl)
find_all-made not_found m (id ∷ ids) h =
    let (x, e) = lookup-has id m h.0 in
    let (xs, e') = find_all-made not_found m ids h.1 in (x ∷ xs, rw (e, e') refl)

pub make_all-made :
    {A B : Type 0} (make : A → Result B) (es : List (String × A))
    → All (λ (e : String × A). (b : B) × (make e.1 ≡ made b)) es
    → (bs : List (String × B)) × (make_all make es ≡ made bs) × ((k : String) → has k bs ≡ has k es)
unfolding make_all and_then
make_all-made make [] h = ([], refl, λ k. refl)
make_all-made make ((id, c) ∷ es) h =
    let (b, e) = h.0 in
    let (bs, e', same) = make_all-made make es h.1 in
    ((id, b) ∷ bs, rw (e, e') refl, λ k. ap (λ l. (k == id) || l) (same k))

new_processor-some :
    (M : Makers) (agency_id t : String) (store : Option M.Store)
    → IsPipelineType t
    → (p : Processor M.Store) × (new_processor M agency_id t store ≡ some p)
unfolding new_processor
new_processor-some M agency_id t store h =
    elim h as (λ t h. (p : Processor M.Store) × (new_processor M agency_id t store ≡ some p)) [
      | IsPipelineType.feed_message_type ↦ (Processor.feed_message_processor agency_id, refl)
      | IsPipelineType.vehicle_position_type ↦ (Processor.vehicle_position_processor, refl)
      | IsPipelineType.stop_event_type ↦ (new_stop_event_processor M store, refl)
      | IsPipelineType.dwell_event_type ↦ (new_dwell_event_processor M store, refl)
      | IsPipelineType.headway_event_type ↦ (new_headway_event_processor M store, refl)
      | IsPipelineType.travel_time_type ↦ (new_travel_time_event_processor M store, refl)
    ]

-- A key that the map or the connectors have.
abbrev pub Covers :
    {A B C : Type 0} → List (String × A) → List (String × B) → List (String × C) → Type 0
Covers es cs es' = (k : String) → (has k es ≡ true) ⊎ (has k cs ≡ true) → has k es' ≡ true

Covers-insert :
    {A B C : Type 0} (id : String) (c : B) (x : A) (es : List (String × A)) (cs : List (String × B))
    (es' : List (String × C))
    → Covers (insert id x es) cs es'
    → Covers es ((id, c) ∷ cs) es'
Covers-insert id c x es cs es' h k (inl e) = h k (inl (ground (arith, has-insert k id x es, e)))
Covers-insert id c x es cs es' h k (inr e) = elim (Bool-cases (k == id)) [
  | inl same ↦ h k (inl (ground (arith, has-insert k id x es, same)))
  | inr other ↦ h k (inr (ground (arith, e, other)))
]

Covers-nil : {A : Type 0} (es : List (String × A)) → Covers {B = Unit {0}} es [] es
Covers-nil es k (inl e) = e
Covers-nil es k (inr e) = ground arith

module _ (M : Makers) where
  open M use {Source, Sink, Store}

  -- The source or the sink starts, whatever the channels are.
  abbrev pub SourceStarts : String × SourceConfig → Type 0
  SourceStarts (id, c) =
      (channels : List (String × String)) → (s : Source) × (new_source M channels c ≡ made s)

  abbrev pub SinkStarts : String × SinkConfig → Type 0
  SinkStarts (id, c) =
      (channels : List (String × String)) → (s : Sink) × (new_sink M channels c ≡ made s)

  connector_source-SourceStarts : (id : String) → SourceStarts (id, connector_source id)
  unfolding new_source
  connector_source-SourceStarts id channels = (M.chan_source (lookup id channels), refl)

  connector_sink-SinkStarts : (id : String) → SinkStarts (id, connector_sink id)
  unfolding new_sink
  connector_sink-SinkStarts id channels = (M.chan_sink (lookup id channels), refl)

  pub add_connectors-some :
      (cs : List (String × Unit {0})) (channels : List (String × String))
      (es : List (String × SourceConfig)) (fs : List (String × SinkConfig))
      → All SourceStarts es
      → All SinkStarts fs
      → (channels' : List (String × String)) × (es' : List (String × SourceConfig)) × (fs' : List
          (String × SinkConfig))
        × (add_connectors cs (channels, some es, some fs) ≡ some (channels', some es', some fs'))
        × All SourceStarts es'
        × All SinkStarts fs'
        × Covers es cs es'
        × Covers fs cs fs'
  unfolding add_connectors
  add_connectors-some [] channels es fs he hf =
      (channels, es, fs, refl, he, hf, Covers-nil es, Covers-nil fs)
  add_connectors-some ((id, c) ∷ cs) channels es fs he hf =
      let (channels', es', fs', e, he', hf', ce, cf) =
        add_connectors-some cs (insert id id channels) (insert id (connector_source id) es)
          (insert id (connector_sink id) fs)
          (All-insert SourceStarts id (connector_source id) es (connector_source-SourceStarts id)
            he)
          (All-insert SinkStarts id (connector_sink id) fs (connector_sink-SinkStarts id) hf) in
      (
        channels',
        es',
        fs',
        e,
        he',
        hf',
        Covers-insert id c (connector_source id) es cs es' ce,
        Covers-insert id c (connector_sink id) fs cs fs' cf,
      )

  new_pipeline-made :
      (g : GraphConfig) (id : String) (cfg : PipelineConfig) (sources : List (String × Source))
      (sinks : List (String × Sink)) (stores : List (String × Store))
      → IsValidPipeline g (id, cfg)
      → ((k : String) → Defines g.sources g.connectors k → has k sources ≡ true)
      → ((k : String) → Defines g.sinks g.connectors k → has k sinks ≡ true)
      → (p : Pipeline M) × (new_pipeline M cfg sources sinks stores ≡ made p)
        × (p.id ≡ cfg.id)
        × (p.processor ≢ none)
  unfolding new_pipeline and_then
  new_pipeline-made g id cfg sources sinks stores v known_sources known_sinks =
      let (kind, _, _, all_sources, all_sinks) = v in
      let store = lookup cfg.state_store stores in
      let (xs, ex) = find_all-made (source_not_found cfg.id) sources cfg.sources (
        All-map (Defines g.sources g.connectors) (λ k. has k sources ≡ true) known_sources
          cfg.sources all_sources) in
      let (ys, ey) = find_all-made (sink_not_found cfg.id) sinks cfg.sinks (
        All-map (Defines g.sinks g.connectors) (λ k. has k sinks ≡ true) known_sinks cfg.sinks
          all_sinks) in
      let (q, eq) = new_processor-some M cfg.agency_id cfg.pipeline_type store kind in
      (
        record {
          id = cfg.id;
          agency_id = cfg.agency_id;
          pipeline_type = cfg.pipeline_type;
          sources = xs;
          state_store = store;
          sinks = ys;
          processor = new_processor M cfg.agency_id cfg.pipeline_type store;
        },
        rw (ex, ey) refl,
        refl,
        λ n. ground (arith, n, eq),
      )

  pub new_pipelines-made :
      (g : GraphConfig) (ps : List (String × PipelineConfig)) (sources : List (String × Source))
      (sinks : List (String × Sink)) (stores : List (String × Store))
      → All (IsValidPipeline g) ps
      → ((k : String) → Defines g.sources g.connectors k → has k sources ≡ true)
      → ((k : String) → Defines g.sinks g.connectors k → has k sinks ≡ true)
      → (made_ps : List (Pipeline M)) × (new_pipelines M sources sinks stores ps ≡ made made_ps)
        × (map (λ (p : Pipeline M). p.id) made_ps
            ≡ map (λ (e : String × PipelineConfig). e.1.id) ps)
        × All (λ (p : Pipeline M). p.processor ≢ none) made_ps
  unfolding new_pipelines and_then
  new_pipelines-made g [] sources sinks stores v known_sources known_sinks = ([], refl, refl, tt)
  new_pipelines-made g ((id, cfg) ∷ rest) sources sinks stores v known_sources known_sinks =
      let (p, e, same, some_processor) =
        new_pipeline-made g id cfg sources sinks stores v.0 known_sources known_sinks in
      let (ps, e', same', some_processors) =
        new_pipelines-made g rest sources sinks stores v.1 known_sources known_sinks in
      (p ∷ ps, rw (e, e') refl, (λ i. same i ∷ same' i), (some_processor, some_processors))
