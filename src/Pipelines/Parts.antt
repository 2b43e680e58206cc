-- ===== src/Pipelines/Parts.antt =====
-- processors/processor.go, and the constructors of sources/source.go, sinks/sink.go and
-- statestore/state_store.go that choose by a type. What they choose from is a parameter: it starts
-- goroutines and calls libraries. A channel of a connector is named by the connector; none is a nil
-- channel.
use tpm_go.Prelude.{not, ◌||◌, ◌++◌, Bool, String, Option, none, some, List, [], ◌∷◌, if◌then◌else◌}
use tpm_go.Prelude.Int.{ℤ, pos}
use tpm_go.Events.Timestamp.{hour}
use tpm_go.Prelude.Text.{◌==◌}
use tpm_go.Prelude.Maps.{lookup}
use tpm_go.Config.{
  HttpSourceConfig, RedisConfig, SseSinkConfig, SourceConfig, SinkConfig, RedisStateStoreConfig,
  StateStoreConfig, ParquetSinkConfig,
}

pub data GraphError : Type 0 where
  source_not_found sink_not_found : String → String → GraphError
  invalid_source_type unknown_sink_type : String → GraphError
  open_failed ping_failed s3_client_failed : GraphError
  invalid_polling_interval : String → GraphError
  dsn_required bucket_name_required : GraphError

-- A value, or an error.
pub data Result (A : Type 0) : Type 0 where
  failed : GraphError → Result A
  made : A → Result A

unfoldable pub and_then : {A B : Type 0} → Result A → (A → Result B) → Result B
and_then (failed e) f = failed e
and_then (made x) f = f x

-- What `buildS3Client` gives to LoadDefaultConfig, and to NewFromConfig.
pub data LoadOption : Type 0 where
  static_credentials : String → String → LoadOption
  region : String → LoadOption

pub data ClientOption : Type 0 where
  -- BaseEndpoint and UsePathStyle
  base_endpoint : String → ClientOption

-- The constructors.
pub record Makers : Type 1 where
  pub Source : Type 0
  pub Sink : Type 0
  pub Store : Type 0
  -- time.ParseDuration returns no error
  pub parse_duration : String → Bool
  -- the duration that it returns
  pub duration : String → ℤ
  pub http_source : HttpSourceConfig → Source
  pub redis_source : RedisConfig → Source
  pub chan_source : Option String → Source
  pub log_sink : String → Sink
  pub sse_sink : SseSinkConfig → Sink
  -- sql.Open, and the connection's PingContext, return no error
  pub open_db : String → String → Bool
  pub ping_db : String → String → Bool
  pub database_sink : SinkConfig → Sink
  -- awsconfig.LoadDefaultConfig returns no error
  pub load_default_config : List LoadOption → Bool
  pub parquet_sink : SinkConfig → List LoadOption → List ClientOption → Sink
  pub redis_sink : RedisConfig → Sink
  pub chan_sink : Option String → Sink
  pub redis_store : RedisStateStoreConfig → Store
  pub in_memory_store : ℤ → Store

-- The processors that `NewProcessor` makes, with what it gives them; the stateful ones have their
-- state store.
pub data Processor (Store : Type 0) : Type 0 where
  feed_message_processor : String → Processor Store
  vehicle_position_processor : Processor Store
  stop_event_processor dwell_event_processor headway_event_processor travel_time_processor :
      Store → Processor Store

-- sqlDriverName
unfoldable pub driver_name : String → String
driver_name driver = if (driver == "") || (driver == "postgres") then "pgx" else driver

-- The options of `buildS3Client`.
unfoldable pub load_options : ParquetSinkConfig → List LoadOption
load_options pc =
    (if pc.aws_access_key == ""
      then []
      else static_credentials pc.aws_access_key pc.aws_secret_key ∷ [])
    ++ (if pc.aws_region == "" then [] else region pc.aws_region ∷ [])

unfoldable pub client_options : ParquetSinkConfig → List ClientOption
client_options pc = if pc.aws_endpoint_url == "" then [] else base_endpoint pc.aws_endpoint_url ∷ []

module _ (M : Makers) where
  open M use {Source, Sink, Store}

  unfoldable pub new_state_store : StateStoreConfig → Store
  new_state_store cfg =
      if cfg.store_type == "redis"
      then M.redis_store cfg.redis
      else M.in_memory_store cfg.in_memory_expiry

  -- `stateStore == nil`: a store of the processor's own, in memory, with this expiry.
  unfoldable pub own_store : ℤ → Option Store → Store
  unfolding new_state_store
  own_store expiry none = new_state_store (record {
    id = "";
    store_type = "in_memory";
    in_memory_expiry = expiry;
    redis = record { addr = ""; password = ""; db = pos 0; expiry = pos 0 };
  })
  own_store expiry (some store) = store

  -- time.Hour * 2
  abbrev pub two_hours : ℤ
  two_hours = pos 7200000000000

  unfoldable pub new_stop_event_processor : Option Store → Processor Store
  unfolding own_store
  new_stop_event_processor store = stop_event_processor (own_store two_hours store)

  unfoldable pub new_dwell_event_processor : Option Store → Processor Store
  unfolding own_store
  new_dwell_event_processor store = dwell_event_processor (own_store hour store)

  unfoldable pub new_headway_event_processor : Option Store → Processor Store
  unfolding own_store
  new_headway_event_processor store = headway_event_processor (own_store two_hours store)

  unfoldable pub new_travel_time_event_processor : Option Store → Processor Store
  unfolding own_store
  new_travel_time_event_processor store = travel_time_processor (own_store two_hours store)

  -- None is a nil Processor.
  unfoldable pub new_processor : String → String → Option Store → Option (Processor Store)
  unfolding new_stop_event_processor new_dwell_event_processor new_headway_event_processor
      new_travel_time_event_processor
  new_processor agency_id t store =
      if t == "feed_message"
      then some (feed_message_processor agency_id)
      else if t == "vehicle_position"
      then some vehicle_position_processor
      else if t == "stop_event"
      then some (new_stop_event_processor store)
      else if t == "dwell_event"
      then some (new_dwell_event_processor store)
      else if t == "headway_event"
      then some (new_headway_event_processor store)
      else if t == "travel_time"
      then some (new_travel_time_event_processor store)
      else none

  -- NewHTTPSource; what it starts is `http_source`
  unfoldable pub new_http_source : HttpSourceConfig → Result Source
  new_http_source cfg =
      if M.parse_duration cfg.interval
      then made (M.http_source cfg)
      else failed (invalid_polling_interval cfg.interval)

  unfoldable pub new_database_sink : SinkConfig → Result Sink
  unfolding driver_name
  new_database_sink cfg =
      let driver = driver_name cfg.database.driver in
      if cfg.database.dsn == ""
      then failed dsn_required
      else if not (M.open_db driver cfg.database.dsn)
      then failed open_failed
      else if not (M.ping_db driver cfg.database.dsn)
      then failed ping_failed
      else made (M.database_sink cfg)

  unfoldable pub new_parquet_sink : SinkConfig → Result Sink
  unfolding load_options client_options
  new_parquet_sink cfg =
      if cfg.parquet.bucket_name == ""
      then failed bucket_name_required
      else if M.load_default_config (load_options cfg.parquet)
      then made (M.parquet_sink cfg (load_options cfg.parquet) (client_options cfg.parquet))
      else failed s3_client_failed

  -- The switches of `NewSource`, `NewSink` and `NewStateStore`; `connectors` is the map of
  -- channels.
  unfoldable pub new_source : List (String × String) → SourceConfig → Result Source
  unfolding new_http_source
  new_source connectors cfg =
      if cfg.source_type == "http"
      then new_http_source cfg.http
      else if cfg.source_type == "connector"
      then made (M.chan_source (lookup cfg.connector.id connectors))
      else if cfg.source_type == "redis"
      then made (M.redis_source cfg.redis)
      else failed (invalid_source_type cfg.source_type)

  unfoldable pub new_sink : List (String × String) → SinkConfig → Result Sink
  unfolding new_database_sink new_parquet_sink
  new_sink connectors cfg =
      if cfg.sink_type == "console"
      then made (M.log_sink cfg.console_level)
      else if cfg.sink_type == "connector"
      then made (M.chan_sink (lookup cfg.connector.id connectors))
      else if cfg.sink_type == "sse"
      then made (M.sse_sink cfg.sse)
      else if cfg.sink_type == "database"
      then new_database_sink cfg
      else if cfg.sink_type == "parquet"
      then new_parquet_sink cfg
      else if cfg.sink_type == "redis"
      then made (M.redis_sink cfg.redis)
      else failed (unknown_sink_type cfg.sink_type)
