-- ===== src/Main/Start.antt =====
-- main.go: what main does with the parsed configuration, up to the exit of an init container or the
-- listening of a sidecar.
use hasura_secret_refresh.Base.{ℕ, Bool, Option, none, some, List, [], if◌then◌else◌}
use hasura_secret_refresh.Strings.{Text, codes, str_eq, is_empty}
use hasura_secret_refresh.Assoc.{Assoc, lookup}
use hasura_secret_refresh.Value.{Object}
use hasura_secret_refresh.Result.{Result, ok, err, panic}
use hasura_secret_refresh.Log.{Level, debug_level, info_level, error_level}
use hasura_secret_refresh.Provider.{HttpProvider, FileProvider}
use hasura_secret_refresh.Main.{
  Config, Makers, init_container, parse_config, run_init, refresh_configs,
}

-- getLogLevel
unfoldable pub get_log_level : Text → Level
get_log_level level =
    if str_eq level (codes "debug")
    then debug_level
    else if str_eq level (codes "error")
    then error_level
    else info_level

abbrev config_file_default_path : Text
config_file_default_path = codes "./config.json"

unfoldable pub is_default_path : Text → Bool
is_default_path config_path = str_eq config_path config_file_default_path

-- Where viper looks for the configuration: a directory, and a file where one is set. The arguments
-- are the two environment variables, empty if unset.
unfoldable pub config_source : Text → Text → Text × Option Text
config_source config_path config_file = (
  if is_empty config_path then codes "." else config_path,
  if is_empty config_file then none else some config_file,
)

-- The parts of a sidecar: the providers of the proxy, the file providers that run as goroutines, and
-- the map of the refresh endpoint, if there is one, with its pattern.
pub record Service (S : Type 0) : Type 0 where
  pub providers : Assoc (HttpProvider S)
  pub started : List (FileProvider S)
  pub refresher : Option (Text × Assoc (FileProvider S))

-- The process has ended with a code, or it listens.
pub data Outcome (S : Type 0) : Type 0 where
  exited : ℕ → S → Outcome S
  serving : Service S → S → Outcome S

-- The endpoint, if the configuration has the key refresh_config; `endpoint` is what viper reads
-- at refresh_config.endpoint.
endpoint_of : Object → Text → Option Text
endpoint_of conf endpoint = elim (lookup (codes "refresh_config") conf) [
  | none ↦ none
  | some v ↦ some endpoint
]

-- `handle` is http.Handle for a pattern, after those of the proxy and of the health check are
-- registered: it panics on a pattern that is empty or registered already.
module _ {S : Type 0} (handle : Text → Result (Unit {0})) where
  unfoldable pub listen : Config S → Option Text → S → Outcome S
  listen c none s =
      serving (record { providers = c.providers; started = c.file_providers; refresher = none }) s
  listen c (some endpoint) s = elim (handle endpoint) [
    | ok u ↦
        serving
          (record {
            providers = c.providers;
            started = c.file_providers;
            refresher = some (endpoint, refresh_configs c.file_providers []);
          })
          s
    | failed ↦ exited 2 s
  ]

  unfoldable pub deploy : Config S → Option Text → S → Outcome S
  unfolding listen
  deploy c endpoint s =
      let (code, s') = run_init c.file_providers s in
      if str_eq c.deployment_type init_container then exited code s' else listen c endpoint s

  -- main, on the settings that viper has read. A configuration with an error ends the process by
  -- Fatal, with 1.
  unfoldable pub start : Makers S → Object → Text → S → Outcome S
  unfolding deploy endpoint_of
  start mk conf endpoint s = elim (parse_config mk conf) [
    | ok c ↦ deploy c (endpoint_of conf endpoint) s
    | err e ↦ exited 1 s
    | panic w ↦ exited 2 s
  ]
