-- ===== src/Tests/Graphs.antt =====
-- A configuration, its graph, and instances of the theorems on both.
use tpm_go.Prelude.{
  ◌≡◌, ◌↔◌, refl, inl, Bool, String, some, none, List, [], ◌∷◌, All, if◌then◌else◌,
}
use tpm_go.Prelude.Int.{pos}
use tpm_go.Prelude.Text.{◌==◌}
use tpm_go.Config.{
  SourceConfig, SinkConfig, PipelineConfig, GraphConfig, unknown_sink, empty_source, empty_sink,
  validate,
}
use tpm_go.Config.Valid.{IsValid, validate-IsValid}
use tpm_go.Pipelines.{made, Makers, new_source, new_sink}
use tpm_go.Graphs.{new_graph}
use tpm_go.Graphs.Loops.{SinkStarts}
use tpm_go.Graphs.Complete.{OtherStarts, new_graph-nil}

abbrev parse_duration : String → Bool
parse_duration s = s == "10s"

-- The names of what is made.
abbrev pub makers : Makers
makers = record {
  Source = String;
  Sink = String;
  Store = String;
  parse_duration = parse_duration;
  duration = λ s. if s == "10s" then pos 10000000000 else pos 0;
  http_source = λ c. c.url;
  redis_source = λ c. c.addr;
  chan_source = λ c. "channel";
  log_sink = λ level. level;
  sse_sink = λ c. c.port;
  open_db = λ driver dsn. driver == "pgx";
  ping_db = λ driver dsn. driver == "pgx";
  database_sink = λ c. c.database.dsn;
  load_default_config = λ options. Bool.true;
  parquet_sink = λ c load client. c.parquet.bucket_name;
  redis_sink = λ c. c.addr;
  chan_sink = λ c. "channel";
  redis_store = λ c. c.addr;
  in_memory_store = λ expiry. "memory";
}

abbrev pub sources : List (String × SourceConfig)
sources =
    (
      "feed",
      record empty_source {
        source_type = "http";
        http = record { url = "https://feed"; interval = "10s" };
      },
    )
    ∷ []

abbrev pub sinks : List (String × SinkConfig)
sinks = ("log", record empty_sink { sink_type = "console" }) ∷ []

abbrev stops : String → PipelineConfig
stops sink = record {
  id = "stops";
  agency_id = "a";
  pipeline_type = "stop_event";
  sources = "positions" ∷ [];
  state_store = "memory";
  sinks = sink ∷ [];
}

abbrev pub config : String → GraphConfig
config sink = record {
  sources = some sources;
  state_stores = none;
  connectors = some (("positions", tt) ∷ []);
  sinks = some sinks;
  pipelines = some (
      (
        "positions",
        record {
          id = "positions";
          agency_id = "a";
          pipeline_type = "vehicle_position";
          sources = "feed" ∷ [];
          state_store = "";
          sinks = "positions" ∷ [];
        },
      )
      ∷ ("stops", stops sink)
      ∷ []);
}

pub accepted : validate parse_duration (config "log") ≡ none
unfolding validate
accepted = refl

refused : validate parse_duration (config "lgo") ≡ some (unknown_sink "stops" "lgo")
unfolding validate
refused = refl

validate-IsValid_example :
    (validate parse_duration (config "log") ≡ none) ↔ IsValid parse_duration (config "log")
validate-IsValid_example = validate-IsValid parse_duration (config "log")

pub sources-start : All (OtherStarts makers) sources
unfolding new_source
sources-start = ((λ other. absurd (other refl)), tt)

pub sinks-start : All (SinkStarts makers) sinks
unfolding new_sink
sinks-start = ((λ channels. ("", refl)), tt)

new_graph-nil_example : new_graph makers (record (config "log") { sources = none }) ≡ none
new_graph-nil_example =
    new_graph-nil makers (record (config "log") { sources = none }) ("positions", tt) [] refl
      (inl refl)

-- The database of the configuration "postgres" is opened with the driver "pgx".
database_made :
    new_sink makers [] (record empty_sink {
      sink_type = "database";
      database = record { driver = "postgres"; dsn = "postgres://tpm"; schema = "" };
    })
    ≡ made "postgres://tpm"
unfolding new_sink
database_made = refl
