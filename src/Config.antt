-- ===== src/Config.antt =====
-- config/: the records of the configuration and `Validate`. A map is nil or its entries in the
-- order of an iteration. `time.ParseDuration` is a parameter, true where it returns no error. The
-- settings that no code reads (Bucket, FileSystem, Outlet and the batch thresholds) are left out.
pub mod Valid
use tpm_go.Prelude.{
  Bool, true, false, ◌||◌, String, Option, none, some, List, [], ◌∷◌, if◌then◌else◌,
}
use tpm_go.Prelude.Int.{ℤ}
use tpm_go.Prelude.Text.{◌==◌}
use tpm_go.Prelude.Maps.{has, entries}

pub record HttpSourceConfig : Type 0 where
  pub url : String
  pub interval : String

-- RedisSourceConfig and RedisSinkConfig
pub record RedisConfig : Type 0 where
  pub addr : String
  pub password : String
  pub db : ℤ
  pub channel : String

pub record ConnectorConfig : Type 0 where
  pub id : String

pub record SourceConfig : Type 0 where
  pub id : String
  pub source_type : String
  pub http : HttpSourceConfig
  pub redis : RedisConfig
  pub connector : ConnectorConfig

pub record DatabaseSinkConfig : Type 0 where
  pub driver : String
  pub dsn : String
  pub schema : String

pub record ParquetSinkConfig : Type 0 where
  pub bucket_name : String
  pub prefix : String
  pub event_type : String
  pub aws_region : String
  pub aws_endpoint_url : String
  pub aws_access_key : String
  pub aws_secret_key : String

pub record SseSinkConfig : Type 0 where
  pub port : String
  pub path : String

pub record SinkConfig : Type 0 where
  pub id : String
  pub sink_type : String
  pub max_batch_size : ℤ
  pub flush_interval : ℤ
  pub console_level : String
  pub redis : RedisConfig
  pub sse : SseSinkConfig
  pub connector : ConnectorConfig
  pub database : DatabaseSinkConfig
  pub parquet : ParquetSinkConfig

pub record RedisStateStoreConfig : Type 0 where
  pub addr : String
  pub password : String
  pub db : ℤ
  pub expiry : ℤ

pub record StateStoreConfig : Type 0 where
  pub id : String
  pub store_type : String
  pub in_memory_expiry : ℤ
  pub redis : RedisStateStoreConfig

pub record PipelineConfig : Type 0 where
  pub id : String
  pub agency_id : String
  pub pipeline_type : String
  pub sources : List String
  pub state_store : String
  pub sinks : List String

abbrev pub GoMap : Type 0 → Type 0
GoMap A = Option (List (String × A))

-- The value of a connector is of any type, and is not read.
pub record GraphConfig : Type 0 where
  pub sources : GoMap SourceConfig
  pub state_stores : GoMap StateStoreConfig
  pub connectors : GoMap Unit
  pub sinks : GoMap SinkConfig
  pub pipelines : GoMap PipelineConfig

abbrev pub empty_http : HttpSourceConfig
empty_http = record { url = ""; interval = "" }

abbrev pub empty_redis : RedisConfig
empty_redis = record { addr = ""; password = ""; db = ℤ.pos 0; channel = "" }

abbrev pub empty_source : SourceConfig
empty_source = record {
  id = "";
  source_type = "";
  http = empty_http;
  redis = empty_redis;
  connector = record { id = "" };
}

abbrev pub empty_sink : SinkConfig
empty_sink = record {
  id = "";
  sink_type = "";
  max_batch_size = ℤ.pos 0;
  flush_interval = ℤ.pos 0;
  console_level = "";
  redis = empty_redis;
  sse = record { port = ""; path = "" };
  connector = record { id = "" };
  database = record { driver = ""; dsn = ""; schema = "" };
  parquet = record {
    bucket_name = "";
    prefix = "";
    event_type = "";
    aws_region = "";
    aws_endpoint_url = "";
    aws_access_key = "";
    aws_secret_key = "";
  };
}

-- The errors of `Validate`, each with the id of the source or the pipeline.
pub data ConfigError : Type 0 where
  url_required interval_required : String → ConfigError
  invalid_interval invalid_type : String → String → ConfigError
  source_required sink_required : String → ConfigError
  unknown_source unknown_sink : String → String → ConfigError

-- validPipelineTypes[t]
unfoldable pub is_valid_type : String → Bool
is_valid_type t =
    t == "feed_message"
    || (t == "vehicle_position"
        || (t == "stop_event"
            || (t == "dwell_event" || (t == "headway_event" || t == "travel_time"))))

-- `if err != nil { return err }`, and what follows
abbrev pub or_else : Option ConfigError → Option ConfigError → Option ConfigError
or_else (some e) next = some e
or_else none next = next

-- A loop that returns the first error.
unfoldable pub first_error {ℓ} :
    {A : Type ℓ} → (A → Option ConfigError) → List A → Option ConfigError
first_error check [] = none
first_error check (x ∷ xs) = or_else (check x) (first_error check xs)

unfoldable pub is_known_source : GraphConfig → String → Bool
is_known_source g id = has id (entries g.sources) || has id (entries g.connectors)

unfoldable pub is_known_sink : GraphConfig → String → Bool
is_known_sink g id = has id (entries g.sinks) || has id (entries g.connectors)

unfoldable pub check_source : (String → Bool) → String × SourceConfig → Option ConfigError
check_source parse_duration (id, src) =
    if src.source_type == "http"
    then if src.http.url == ""
      then some (url_required id)
      else if src.http.interval == ""
      then some (interval_required id)
      else if parse_duration src.http.interval
      then none
      else some (invalid_interval id src.http.interval)
    else none

-- `len(ids) == 0`
abbrev pub is_empty : List String → Bool
is_empty [] = true
is_empty (_ ∷ _) = false

unfoldable pub check_references : GraphConfig → String → PipelineConfig → Option ConfigError
unfolding first_error is_known_source is_known_sink
check_references g id p =
    or_else
      (first_error (λ s. if is_known_source g s then none else some (unknown_source id s))
        p.sources)
      (first_error (λ s. if is_known_sink g s then none else some (unknown_sink id s)) p.sinks)

unfoldable pub check_pipeline : GraphConfig → String × PipelineConfig → Option ConfigError
unfolding is_valid_type check_references
check_pipeline g (id, p) =
    if is_valid_type p.pipeline_type
    then if is_empty p.sources
      then some (source_required id)
      else if is_empty p.sinks
      then some (sink_required id)
      else check_references g id p
    else some (invalid_type id p.pipeline_type)

-- None is a nil error.
unfoldable pub validate : (String → Bool) → GraphConfig → Option ConfigError
unfolding first_error check_source check_pipeline
validate parse_duration g =
    or_else (first_error (check_source parse_duration) (entries g.sources))
      (first_error (check_pipeline g) (entries g.pipelines))
