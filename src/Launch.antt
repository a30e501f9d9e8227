-- ===== src/Launch.antt =====
-- The start of the bridge: run_bridge of cpp-sdk-http-bridge-linux/src/main.cpp, in its Linux build. The
-- files, the environment, and how run_server ends for a configuration are parameters; the output, the
-- log and the signal handlers are left out.
pub mod Serves
use hik_hcnet_http_bridge.Common.{
  ℕ, Bool, true, false, ◌||◌, List, [], ◌∷◌, ◌++◌, Option, none, some, if◌then◌else◌,
}
use hik_hcnet_http_bridge.Text.{Bytes, codes, equal}
use hik_hcnet_http_bridge.Error.{
  Result, ok, err, Fault, bridge_error, client_disconnected, other_exception, ◌>>=◌, ◌>>◌, guard,
  throw, invalid_command, sdk_not_found, ffmpeg_not_found,
}
use hik_hcnet_http_bridge.Config.{Config, Environment, load_config}

abbrev pub default_path : Bytes
default_path = codes "/opt/hik-bridge/config/config.json"

-- The loop over the arguments; behind --config the next one is the path.
unfoldable pub read_options : Bool → Bytes → Bool → List Bytes → Result (Bytes × Bool)
read_options true path validate [] = throw 400 invalid_command
read_options false path validate [] = ok (path, validate)
read_options true path validate (a ∷ rest) = read_options false a validate rest
read_options false path validate (a ∷ rest) =
    let more = read_options false path validate rest in
    let validating = read_options false path true rest in
    let configured = read_options true path validate rest in
    if equal a (codes "run")
    then more
    else if equal a (codes "validate-config") || equal a (codes "--validate-config")
    then validating
    else if equal a (codes "--config")
    then configured
    else throw 400 invalid_command

abbrev pub is_version : List Bytes → Bool
is_version [] = false
is_version (a ∷ rest) = equal a (codes "version") || equal a (codes "--version")

-- How the process ends, and the configuration with which run_server was called, if it was.
pub record Run : Type 0 where
  pub exit_code : ℕ
  pub served : Option Config

abbrev pub exit_of : {A : Type 0} → Result A → ℕ
exit_of (ok a) = 0
exit_of (err (bridge_error status code)) = 2
exit_of (err e) = 1

-- A path below a directory.
abbrev pub below : Bytes → Bytes → Bytes
below directory name = directory ++ b'/' ∷ name

module _ (environment : Bytes → Environment) (file : Bytes → Option Bytes) (exists : Bytes → Bool)
    (run_server : Config → Result (Unit {0})) where
  -- All that comes before the server: `none` where the configuration was only to be checked.
  unfoldable pub prepared : List Bytes → Result (Option Config)
  unfolding read_options load_config
  prepared arguments = do
    (path, validate) ← read_options false default_path false arguments
    config ← load_config (environment path) (file path)
    guard (exists (below config.sdk_directory (codes "libhcnetsdk.so"))) 500 sdk_not_found
    guard (exists config.ffmpeg_path) 500 ffmpeg_not_found
    ok (if validate then none else some config)

  abbrev pub serve : Result (Option Config) → Run
  serve (ok (some config)) = record {
    exit_code = exit_of (run_server config);
    served = some config;
  }
  serve (ok none) = record { exit_code = 0; served = none }
  serve (err e) = record { exit_code = exit_of {A = Config} (err e); served = none }

  -- The arguments behind the name of the program.
  unfoldable pub run_bridge : List Bytes → Run
  unfolding prepared
  run_bridge arguments =
      if is_version arguments
      then record { exit_code = 0; served = none }
      else serve (prepared arguments)
