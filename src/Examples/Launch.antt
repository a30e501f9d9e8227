-- ===== src/Examples/Launch.antt =====
-- Starts of the bridge with concrete arguments.
use hik_hcnet_http_bridge.Common.{
  ◌≡◌, refl, Bool, true, false, List, [], ◌∷◌, ◌++◌, Option, none, some, pos,
}
use hik_hcnet_http_bridge.Text.{Bytes, codes, equal}
use hik_hcnet_http_bridge.Error.{Result, ok, err, bridge_error, invalid_command}
use hik_hcnet_http_bridge.Config.{Config, Environment, load_config, read_config, sections, is_valid}
use hik_hcnet_http_bridge.Config.Json.{
  json_section, json_int, json_bool, json_string, section_of, behind_first, strip, json_value,
  value_at, skip, trim, trim_end, take_until, int_of, bool_of,
}
use hik_hcnet_http_bridge.Launch.{read_options, prepared, run_bridge}
use hik_hcnet_http_bridge.Launch.Serves.{IsServable, run_bridge-IsServable}

abbrev environment : Bytes → Environment
environment path = record {
  located = λ name. codes "/opt/hik-bridge/config/" ++ name;
  variable = λ name. none;
}

abbrev file : Bytes → Option Bytes
file path = some (codes "{}")

abbrev exists : Bytes → Bool
exists path = true

abbrev run_server : Config → Result (Unit {0})
run_server config = ok tt

abbrev located : Bytes → Bytes
located name = codes "/opt/hik-bridge/config/" ++ name

-- What an empty file gives.
abbrev defaults : Config
defaults = record {
  bind = codes "127.0.0.1";
  port = pos 28080;
  max_sessions = pos 16;
  max_http_connections = pos 64;
  sdk_directory = located (codes "../sdk");
  read_video_codec_from_device = true;
  force_keyframe_on_realplay = true;
  realplay_keyframe_interval_frames = pos 25;
  connect_probe_timeout_ms = pos 1500;
  ffmpeg_path = located (codes "/usr/bin/ffmpeg");
  ffmpeg_log_level = codes "info";
  hardware_acceleration = codes "auto";
  hardware_probe_timeout_ms = pos 3000;
  log_directory = located (codes "../logs");
  log_retention_days = pos 30;
  queue_bytes = pos 67108864;
  queue_backpressure_ms = pos 500;
  max_playback_seconds = pos 86400;
  sdk_start_ms = pos 10000;
  first_media_ms = pos 15000;
  no_sdk_data_ms = pos 10000;
  output_stall_ms = pos 60000;
  client_write_stall_ms = pos 60000;
  playback_keep_alive_ms = pos 1500;
  output_video_codec = codes "h264";
  video_encoder = codes "libx264";
  video_preset = codes "veryfast";
  enable_audio = false;
  codec_cache_seconds = pos 900;
  codec_cache_file = located (codes "../state/video-codec-cache.tsv");
}

abbrev arguments : List Bytes
arguments = codes "run" ∷ codes "--config" ∷ codes "bridge.json" ∷ []

served_defaults : (run_bridge environment file exists run_server arguments).served ≡ some defaults
unfolding run_bridge prepared read_options load_config read_config sections is_valid json_section
    json_int json_bool json_string section_of behind_first strip json_value value_at skip trim
    trim_end take_until int_of bool_of equal
served_defaults = refl

run_bridge-IsServable_example : IsServable environment file exists run_server arguments defaults
run_bridge-IsServable_example =
    run_bridge-IsServable environment file exists run_server arguments defaults served_defaults

-- Behind --config there is nothing.
read_options_no_path :
    read_options false [] false (codes "--config" ∷ []) ≡ err (bridge_error 400 invalid_command)
unfolding read_options equal
read_options_no_path = refl
