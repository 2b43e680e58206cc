-- ===== src/Main.antt =====
-- main.go and `ReadConfig` of config/config.go: from the environment, the arguments and the files
-- to a graph that runs. The logging exporter, files, YAML and signals are outside the repository:
-- what they answer is a parameter.
pub mod Starts
use tpm_go.Prelude.{
  ℕ, Bool, true, ◌&&◌, not, String, Option, none, some, List, [], ◌∷◌, if◌then◌else◌, map,
}
use tpm_go.Prelude.Text.{◌==◌}
use tpm_go.Config.{ConfigError, SourceConfig, SinkConfig, GraphConfig, GoMap, validate}
use tpm_go.Pipelines.{Result, made, failed, Makers}
use tpm_go.Graphs.{Graph, add_connectors, new_graph}
use tpm_go.Prelude.Maps.{entries}
use tpm_go.Sources.Http.{new_ticker}

pub data ReadError : Type 0 where
  file_failed yaml_failed : ReadError
  invalid : ConfigError → ReadError

-- What `ReadConfig` returns: an error, or the graph's configuration, which may be nil.
pub data ReadResult : Type 0 where
  unread : ReadError → ReadResult
  read : Option GraphConfig → ReadResult

-- How a run of `main` goes up to the call of `graph.Run`: an exit with a code, a panic, or a graph
-- to run.
pub data Outcome (M : Makers) : Type 0 where
  exits : ℕ → Outcome M
  panics : Outcome M
  runs : Graph M → Outcome M

pub record World : Type 0 where
  -- os.Getenv: empty where the variable is not set
  pub getenv : String → String
  -- os.Args
  pub args : List String
  -- otlploghttp.New returns no error
  pub exporter_starts : String → Bool
  -- os.ReadFile
  pub read_file : String → Option (List ℕ)
  -- yaml.Unmarshal into a ConfigYaml
  pub unmarshal : List ℕ → Option (Option GraphConfig)

abbrev pub default_config_path : String
default_config_path = "./config/configs/default.yaml"

-- Without and with the variable CONFIG_PATH.
abbrev pub path_of_args : List String → String
path_of_args (program ∷ path ∷ rest) = path
path_of_args _ = default_config_path

unfoldable pub config_path : World → String
config_path w =
    let env_path = w.getenv "CONFIG_PATH" in
    if env_path == "" then path_of_args w.args else env_path

-- From the call of `Validate` on.
abbrev pub check_config : GraphConfig → Option ConfigError → ReadResult
check_config cfg none = read (some cfg)
check_config cfg (some e) = unread (invalid e)

unfoldable pub validated : (String → Bool) → Option GraphConfig → ReadResult
validated parse_duration none = read none
validated parse_duration (some cfg) = check_config cfg (validate parse_duration cfg)

abbrev pub parsed : (String → Bool) → Option (Option GraphConfig) → ReadResult
parsed parse_duration none = unread yaml_failed
parsed parse_duration (some graph) = validated parse_duration graph

abbrev pub opened : (String → Bool) → World → Option (List ℕ) → ReadResult
opened parse_duration w none = unread file_failed
opened parse_duration w (some b) = parsed parse_duration (w.unmarshal b)

unfoldable pub read_config : (String → Bool) → World → String → ReadResult
unfolding validated
read_config parse_duration w path = opened parse_duration w (w.read_file path)

-- The sources that `NewGraph` makes: those of the configuration, and the connectors.
abbrev pub sources_after :
    Option (List (String × String) × GoMap SourceConfig × GoMap SinkConfig)
    → List (String × SourceConfig)
sources_after none = []
sources_after (some (channels, sources, sinks)) = entries sources

unfoldable pub source_configs : GraphConfig → List (String × SourceConfig)
unfolding add_connectors
source_configs cfg =
    sources_after (add_connectors (entries cfg.connectors) ([], cfg.sources, cfg.sinks))

module _ (M : Makers) where
  -- The goroutine of the source, if it is an HTTP source, gets its ticker.
  unfoldable pub gets_ticker : String × SourceConfig → Bool
  unfolding new_ticker
  gets_ticker (id, c) =
      if c.source_type == "http" && M.parse_duration c.http.interval
      then new_ticker (M.duration c.http.interval)
      else true

  unfoldable pub all_get_tickers : List (String × SourceConfig) → Bool
  unfolding gets_ticker
  all_get_tickers [] = true
  all_get_tickers (s ∷ ss) = gets_ticker s && all_get_tickers ss

  abbrev pub with_graph : Option (Result (Graph M)) → Outcome M
  with_graph none = panics
  with_graph (some (failed e)) = exits 1
  with_graph (some (made graph)) = runs graph

  -- A panic of a source's goroutine ends the program; the goroutine is taken to run at once.
  unfoldable pub start_graph : GraphConfig → Outcome M
  unfolding source_configs all_get_tickers new_graph
  start_graph cfg =
      if all_get_tickers (source_configs cfg) then with_graph (new_graph M cfg) else panics

  abbrev pub with_config : ReadResult → Outcome M
  with_config (unread e) = exits 1
  with_config (read none) = exits 1
  with_config (read (some cfg)) = start_graph cfg

  unfoldable pub main : World → Outcome M
  unfolding read_config config_path
  main w =
      let url = w.getenv "OTEL_EXPORTER_OTLP_ENDPOINT" in
      if not (url == "") && not (w.exporter_starts url)
      then exits 1
      else with_config (read_config M.parse_duration w (config_path w))

  -- graph.Close(), where `close` closes a store
  unfoldable pub shut_down : (M.Store → M.Store) → Graph M → Graph M
  shut_down close graph = record graph { state_stores = map close graph.state_stores }
