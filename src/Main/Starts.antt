-- ===== src/Main/Starts.antt =====
-- main.go, where the configuration that it reads is startable.
use tpm_go.Prelude.{
  ℕ, ◌≡◌, ◌≢◌, ◌⊎◌, inl, inr, refl, true, [], ◌∷◌, Bool-cases, Option-cases, ◌&&◌, not, String,
  Option, none, some, List, All, All-map, map, arith,
}
use tpm_go.Prelude.Int.{pos, ◌<ℤ◌, lt→ltb_ℤ}
use tpm_go.Sources.Http.{new_ticker}
use tpm_go.Prelude.Text.{◌==◌, eq_iff}
use tpm_go.Prelude.Maps.{entries, insert, All-insert}
use tpm_go.Config.{SourceConfig, SinkConfig, PipelineConfig, GraphConfig, validate}
use tpm_go.Pipelines.{Makers, Pipeline}
use tpm_go.Graphs.{Graph, connector_source, connector_sink, add_connectors, new_graph}
use tpm_go.Graphs.Loops.{SinkStarts}
use tpm_go.Graphs.Complete.{OtherStarts, new_graph-validate}
use tpm_go.Main.{
  start_graph, with_graph, gets_ticker, all_get_tickers, sources_after, source_configs, Outcome,
  exits, runs, World, ReadResult, read, unread, with_config, parsed, validated, opened, config_path,
  read_config, main,
}

module _ (M : Makers) where
  -- The interval of an HTTP source is positive.
  abbrev pub IsPositive : String × SourceConfig → Type 0
  IsPositive (id, c) = c.source_type ≡ "http" → pos 0 <ℤ M.duration c.http.interval

  -- The maps of sources and of sinks are not nil, and what `Validate` does not check is
  -- fine: the intervals of the HTTP sources, the other sources and the sinks.
  pub record IsStartable (cfg : GraphConfig) : Type 0 where
    pub sources : List (String × SourceConfig)
    pub sinks : List (String × SinkConfig)
    pub has_sources : cfg.sources ≡ some sources
    pub has_sinks : cfg.sinks ≡ some sinks
    pub intervals : All IsPositive sources
    pub sources_start : All (OtherStarts M) sources
    pub sinks_start : All (SinkStarts M) sinks

  -- The graph has the configured pipelines, in order, each with a processor.
  abbrev pub IsComplete : GraphConfig → Graph M → Type 0
  IsComplete cfg graph =
      (map (λ (p : Pipeline M). p.id) graph.pipelines
        ≡ map (λ (e : String × PipelineConfig). e.1.id) (entries cfg.pipelines))
      × All (λ (p : Pipeline M). p.processor ≢ none) graph.pipelines

  parsed-validate :
      (o : Option (Option GraphConfig)) (cfg : GraphConfig)
      → parsed M.parse_duration o ≡ read (some cfg)
      → validate M.parse_duration cfg ≡ none
  unfolding validated
  parsed-validate none cfg h = cc
  parsed-validate (some none) cfg h = cc
  parsed-validate (some (some g)) cfg h = elim (Option-cases (validate M.parse_duration g)) [
    | inl valid ↦
        let same : read (some g) ≡ read (some cfg) = rw valid at h in ground (arith, valid, same)
    | inr (e, bad) ↦ cc (rw bad at h)
  ]

  opened-validate :
      (w : World) (o : Option (List ℕ)) (cfg : GraphConfig)
      → opened M.parse_duration w o ≡ read (some cfg)
      → validate M.parse_duration cfg ≡ none
  opened-validate w none cfg h = cc
  opened-validate w (some b) cfg h = parsed-validate (w.unmarshal b) cfg h

  IsPositive-gets_ticker : (e : String × SourceConfig) → IsPositive e → gets_ticker M e ≡ true
  unfolding gets_ticker new_ticker
  IsPositive-gets_ticker (id, c) h = elim (Bool-cases (c.source_type == "http")) [
    | inl polls ↦
        let ticks =
          lt→ltb_ℤ (pos 0) (M.duration c.http.interval)
            (h ((eq_iff c.source_type "http").0 polls)) in
        ground (arith, ticks)
    | inr rest ↦ rw rest refl
  ]

  all_get_tickers-true :
      (es : List (String × SourceConfig))
      → All (λ s. gets_ticker M s ≡ true) es
      → all_get_tickers M es ≡ true
  unfolding all_get_tickers
  all_get_tickers-true [] h = refl
  all_get_tickers-true (e ∷ es) h = rw (h.0, all_get_tickers-true es h.1) refl

  connector_source-gets_ticker : (id : String) → gets_ticker M (id, connector_source id) ≡ true
  unfolding gets_ticker
  connector_source-gets_ticker id = refl

  -- The connectors' sources need no ticker.
  sources_after-get_tickers :
      (cs : List (String × Unit {0})) (channels : List (String × String))
      (es : List (String × SourceConfig)) (fs : List (String × SinkConfig))
      → All (λ s. gets_ticker M s ≡ true) es
      → All
          (λ s. gets_ticker M s ≡ true)
          (sources_after (add_connectors cs (channels, some es, some fs)))
  unfolding add_connectors
  sources_after-get_tickers [] channels es fs h = h
  sources_after-get_tickers ((id, c) ∷ cs) channels es fs h =
      sources_after-get_tickers cs (insert id id channels) (insert id (connector_source id) es)
        (insert id (connector_sink id) fs)
        (All-insert (λ s. gets_ticker M s ≡ true) id (connector_source id) es
          (connector_source-gets_ticker id) h)

  source_configs-get_tickers :
      (cfg : GraphConfig) → IsStartable cfg → all_get_tickers M (source_configs cfg) ≡ true
  unfolding source_configs
  source_configs-get_tickers cfg k =
      rw (k.has_sources, k.has_sinks)
        (all_get_tickers-true
          (sources_after
            (add_connectors (entries cfg.connectors) ([], some k.sources, some k.sinks)))
          (sources_after-get_tickers (entries cfg.connectors) [] k.sources k.sinks (
            All-map IsPositive (λ s. gets_ticker M s ≡ true) IsPositive-gets_ticker k.sources
              k.intervals)))

  start_graph-with_graph :
      (cfg : GraphConfig) → IsStartable cfg → start_graph M cfg ≡ with_graph M (new_graph M cfg)
  unfolding start_graph
  start_graph-with_graph cfg k = rw (source_configs-get_tickers cfg k) refl

  -- How `main` goes on with what it read.
  abbrev pub GoesOn : ReadResult → Outcome M → Type 0
  GoesOn r outcome =
      (outcome ≡ exits 1)
      ⊎ ((cfg : GraphConfig) × (graph : Graph M) × (outcome ≡ runs graph)
          × (r ≡ read (some cfg))
          × IsComplete cfg graph)

  with_config-GoesOn :
      (r : ReadResult)
      → ((cfg : GraphConfig)
          → r ≡ read (some cfg)
          → (validate M.parse_duration cfg ≡ none) × IsStartable cfg)
      → GoesOn r (with_config M r)
  with_config-GoesOn (unread e) h = inl refl
  with_config-GoesOn (read none) h = inl refl
  with_config-GoesOn (read (some cfg)) h =
      let (valid, k) = h cfg refl in
      let (graph, built, ids, processors) =
        new_graph-validate M cfg k.sources k.sinks valid k.has_sources k.has_sinks k.sources_start
          k.sinks_start in
      inr (cfg, graph, rw (start_graph-with_graph cfg k, built) refl, refl, (ids, processors))

  -- Where the configuration that is read, if one is, is startable, `main` does not panic on its way
  -- to `graph.Run`, nor does an HTTP source where it starts its ticker: the program exits with code
  -- 1, or it has read a configuration and gets to `Run` of a graph that has its pipelines, in
  -- order, each with a processor. Startable: the maps of sources and of sinks are not nil, the
  -- interval of each HTTP source is positive, and each other source and each sink starts.
  pub main-GoesOn :
      (w : World)
      → ((cfg : GraphConfig)
          → read_config M.parse_duration w (config_path w) ≡ read (some cfg)
          → IsStartable cfg)
      → GoesOn (read_config M.parse_duration w (config_path w)) (main M w)
  unfolding main
  main-GoesOn w starts =
      let url : String = w.getenv "OTEL_EXPORTER_OTLP_ENDPOINT" in
      elim (Bool-cases (not (url == "") && not (w.exporter_starts url))) [
        | inl fails ↦ inl (rw fails refl)
        | inr fine ↦ rw fine (
            with_config-GoesOn (read_config M.parse_duration w (config_path w)) (λ cfg h. (
              opened-validate w (w.read_file (config_path w)) cfg (unfold read_config in h),
              starts cfg h,
            )))
      ]
