-- ===== src/Tests/Start.antt =====
-- A start of the program with a path among its arguments.
use tpm_go.Prelude.{arith, ◌≡◌, refl, subst, ap, sym, ◌∙◌, Bool, none, some, [], ◌∷◌, if◌then◌else◌}
use tpm_go.Prelude.Int.{pos}
use tpm_go.Prelude.Text.{◌==◌}
use tpm_go.Config.{GraphConfig, validate}
use tpm_go.Main.{World, ReadResult, read, read_config, config_path, start_graph, main, panics}
use tpm_go.Main.Starts.{IsStartable, GoesOn, main-GoesOn}
use tpm_go.Tests.Graphs.{makers, sources, sinks, config, sources-start, sinks-start}

abbrev world : World
world = record {
  getenv = λ name. "";
  args = "tpm-go" ∷ "graph.yaml" ∷ [];
  exporter_starts = λ url. Bool.false;
  read_file = λ path. if path == "graph.yaml" then some [] else none;
  unmarshal = λ file. some (some (config "log"));
}

log_config :
    read_config makers.parse_duration world (config_path world) ≡ read (some (config "log"))
unfolding read_config config_path validate
log_config = refl

abbrev config_of : ReadResult → GraphConfig
config_of (read (some cfg)) = cfg
config_of _ = config "log"

config-IsStartable : IsStartable makers (config "log")
config-IsStartable = record {
  sources = sources;
  sinks = sinks;
  has_sources = refl;
  has_sinks = refl;
  intervals = (λ http. omega arith, tt);
  sources_start = sources-start;
  sinks_start = sinks-start;
}

main-GoesOn_example :
    GoesOn makers (read_config makers.parse_duration world (config_path world)) (main makers world)
main-GoesOn_example =
    main-GoesOn makers world
      (λ cfg h. subst (IsStartable makers) (ap config_of (sym log_config ∙ h)) config-IsStartable)

-- An interval that `Validate` may accept, and that a ticker does not.
zero_interval :
    main (record makers { parse_duration = λ s. Bool.true; duration = λ s. pos 0 }) world ≡ panics
unfolding main validate start_graph
zero_interval = refl
