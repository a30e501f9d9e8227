-- ===== src/Config.antt =====
-- The configuration: struct Config and load_config of cpp-sdk-http-bridge-linux/src/main.cpp. The file's
-- text is given; making a path absolute and the environment are the system's, and parameters.
pub mod Json
pub mod Ranges
use hik_hcnet_http_bridge.Common.{
  ℕ, Bool, true, false, ◌&&◌, ◌||◌, not, List, [], ◌∷◌, Option, none, some, if◌then◌else◌, ◌+◌, ℤ,
  pos, leb_ℤ, ltb_ℤ, is_empty, map,
}
use hik_hcnet_http_bridge.Text.{Bytes, codes, equal, within}
use hik_hcnet_http_bridge.Error.{
  Result, ok, err, ◌>>=◌, ◌>>◌, guard, throw, invalid_config, config_not_found,
}
use hik_hcnet_http_bridge.Config.Json.{json_section, json_int, json_bool, json_string}

pub record Config : Type 0 where
  pub bind : Bytes
  pub port : ℤ
  pub max_sessions : ℤ
  pub max_http_connections : ℤ
  pub sdk_directory : Bytes
  pub read_video_codec_from_device : Bool
  pub force_keyframe_on_realplay : Bool
  pub realplay_keyframe_interval_frames : ℤ
  pub connect_probe_timeout_ms : ℤ
  pub ffmpeg_path : Bytes
  pub ffmpeg_log_level : Bytes
  pub hardware_acceleration : Bytes
  pub hardware_probe_timeout_ms : ℤ
  pub log_directory : Bytes
  pub log_retention_days : ℤ
  pub queue_bytes : ℤ
  pub queue_backpressure_ms : ℤ
  pub max_playback_seconds : ℤ
  pub sdk_start_ms : ℤ
  pub first_media_ms : ℤ
  pub no_sdk_data_ms : ℤ
  pub output_stall_ms : ℤ
  pub client_write_stall_ms : ℤ
  pub playback_keep_alive_ms : ℤ
  pub output_video_codec : Bytes
  pub video_encoder : Bytes
  pub video_preset : Bytes
  pub enable_audio : Bool
  pub codec_cache_seconds : ℤ
  pub codec_cache_file : Bytes

-- `some` is the value of a variable of the environment.
pub record Environment : Type 0 where
  -- fs::absolute(root / path), where the path is relative
  pub located : Bytes → Bytes
  pub variable : Bytes → Option Bytes

-- std::tolower of each byte
abbrev pub lower : ℕ → ℕ
lower c = if within b'A' b'Z' c then c + 32 else c

abbrev pub overridden : Option Bytes → Bytes → Bytes
overridden none path = path
overridden (some other) path = other

abbrev pub is_within : ℕ → ℕ → ℤ → Bool
is_within lo hi z = leb_ℤ (pos lo) z && leb_ℤ z (pos hi)

abbrev pub at_least : ℕ → ℤ → Bool
at_least lo z = leb_ℤ (pos lo) z

abbrev pub is_one_of : Bytes → List Bytes → Bool
is_one_of text [] = false
is_one_of text (t ∷ ts) = equal text t || is_one_of text ts

-- The words for the hardware acceleration.
abbrev pub accelerations : List Bytes
accelerations =
    codes "auto"
    ∷ codes "off"
    ∷ codes "none"
    ∷ codes "disabled"
    ∷ codes "software"
    ∷ codes "nvidia"
    ∷ codes "nvenc"
    ∷ codes "cuda"
    ∷ codes "qsv"
    ∷ codes "intel"
    ∷ codes "amf"
    ∷ codes "amd"
    ∷ []

-- The negation of the long test at the end of load_config.
unfoldable pub is_valid : Bytes → Config → Bool
is_valid sdk_type c =
    equal sdk_type (codes "hcnetsdk")
    && (equal c.bind (codes "127.0.0.1")
        && (is_within 1 65535 c.port
            && (at_least 1 c.max_sessions
                && (is_within 1 4096 c.max_http_connections
                    && (at_least 65536 c.queue_bytes
                        && (is_within 0 5000 c.queue_backpressure_ms
                            && (is_within 0 86400 c.codec_cache_seconds
                                && (is_within 0 65535 c.realplay_keyframe_interval_frames
                                    && (is_within 100 10000 c.connect_probe_timeout_ms
                                        && (not (is_empty c.codec_cache_file)
                                            && (at_least 1 c.log_retention_days
                                                && (at_least 1 c.max_playback_seconds
                                                    && (at_least 1 c.sdk_start_ms
                                                        && (at_least 1 c.first_media_ms
                                                            && (at_least 1 c.no_sdk_data_ms
                                                            && (is_within 1000 600000
                                                            c.output_stall_ms
                                                            && (is_within 1000 600000
                                                            c.client_write_stall_ms
                                                            && (is_within 1000 5000
                                                            c.playback_keep_alive_ms
                                                            && (not (is_empty c.log_directory)
                                                            && (equal c.output_video_codec
                                                            (codes "h264")
                                                            && (not (is_empty c.video_encoder)
                                                            && (not (is_empty c.video_preset)
                                                            && (is_within 1000 30000
                                                            c.hardware_probe_timeout_ms
                                                            && is_one_of c.hardware_acceleration
                                                            accelerations)))))))))))))))))))))))

-- The sections of the file.
pub record Sections : Type 0 where
  pub server : Bytes
  pub sdk : Bytes
  pub ffmpeg : Bytes
  pub logging : Bytes
  pub media : Bytes
  pub timeouts : Bytes

unfoldable pub sections : Bytes → Sections
unfolding json_section
sections json = record {
  server = json_section json (codes "server");
  sdk = json_section json (codes "sdk");
  ffmpeg = json_section json (codes "ffmpeg");
  logging = json_section json (codes "logging");
  media = json_section json (codes "media");
  timeouts = json_section json (codes "timeouts");
}

module _ (environment : Environment) where
  -- A path that is made absolute, or replaced by the environment.
  abbrev place : Bytes → Bytes → Bytes
  place name path = overridden (environment.variable name) (environment.located path)

  -- What the file says, with the defaults of Config for what it does not.
  unfoldable pub read_config : Sections → Result Config
  read_config s = do
    port ← json_int s.server (codes "port") (pos 28080)
    max_sessions ← json_int s.server (codes "maxSessions") (pos 16)
    max_http_connections ← json_int s.server (codes "maxHttpConnections") (pos 64)
    read_video_codec_from_device ← json_bool s.sdk (codes "readVideoCodecFromDevice") true
    force_keyframe_on_realplay ← json_bool s.sdk (codes "forceKeyFrameOnRealPlay") true
    realplay_keyframe_interval_frames ←
        json_int s.sdk (codes "realPlayKeyFrameIntervalFrames") (pos 25)
    connect_probe_timeout_ms ← json_int s.sdk (codes "connectProbeTimeoutMs") (pos 1500)
    hardware_probe_timeout_ms ← json_int s.ffmpeg (codes "hardwareProbeTimeoutMs") (pos 3000)
    log_retention_days ← json_int s.logging (codes "retentionDays") (pos 30)
    queue_bytes ← json_int s.media (codes "queueBytes") (pos 67108864)
    guard (not (ltb_ℤ queue_bytes (pos 0))) 500 invalid_config
    queue_backpressure_ms ← json_int s.media (codes "queueBackpressureMs") (pos 500)
    max_playback_seconds ← json_int s.media (codes "maxPlaybackSeconds") (pos 86400)
    enable_audio ← json_bool s.media (codes "enableAudio") false
    codec_cache_seconds ← json_int s.media (codes "codecCacheSeconds") (pos 900)
    sdk_start_ms ← json_int s.timeouts (codes "sdkStartMs") (pos 10000)
    first_media_ms ← json_int s.timeouts (codes "firstMediaMs") (pos 15000)
    no_sdk_data_ms ← json_int s.timeouts (codes "noSdkDataMs") (pos 10000)
    output_stall_ms ← json_int s.timeouts (codes "outputStallMs") (pos 60000)
    client_write_stall_ms ← json_int s.timeouts (codes "clientWriteStallMs") (pos 60000)
    playback_keep_alive_ms ← json_int s.timeouts (codes "playbackKeepAliveMs") (pos 1500)
    ok (record {
      bind = json_string s.server (codes "bind") (codes "127.0.0.1");
      port = port;
      max_sessions = max_sessions;
      max_http_connections = max_http_connections;
      sdk_directory =
          place (codes "HIK_BRIDGE_SDK_DIR")
            (json_string s.sdk (codes "directory") (codes "../sdk"));
      read_video_codec_from_device = read_video_codec_from_device;
      force_keyframe_on_realplay = force_keyframe_on_realplay;
      realplay_keyframe_interval_frames = realplay_keyframe_interval_frames;
      connect_probe_timeout_ms = connect_probe_timeout_ms;
      ffmpeg_path =
          place (codes "HIK_BRIDGE_FFMPEG_PATH")
            (json_string s.ffmpeg (codes "path") (codes "/usr/bin/ffmpeg"));
      ffmpeg_log_level = json_string s.ffmpeg (codes "logLevel") (codes "info");
      hardware_acceleration =
          map lower (json_string s.ffmpeg (codes "hardwareAcceleration") (codes "auto"));
      hardware_probe_timeout_ms = hardware_probe_timeout_ms;
      log_directory =
          place (codes "HIK_BRIDGE_LOG_DIR")
            (json_string s.logging (codes "directory") (codes "../logs"));
      log_retention_days = log_retention_days;
      queue_bytes = queue_bytes;
      queue_backpressure_ms = queue_backpressure_ms;
      max_playback_seconds = max_playback_seconds;
      sdk_start_ms = sdk_start_ms;
      first_media_ms = first_media_ms;
      no_sdk_data_ms = no_sdk_data_ms;
      output_stall_ms = output_stall_ms;
      client_write_stall_ms = client_write_stall_ms;
      playback_keep_alive_ms = playback_keep_alive_ms;
      output_video_codec = json_string s.media (codes "outputVideoCodec") (codes "h264");
      video_encoder = json_string s.media (codes "videoEncoder") (codes "libx264");
      video_preset = json_string s.media (codes "videoPreset") (codes "veryfast");
      enable_audio = enable_audio;
      codec_cache_seconds = codec_cache_seconds;
      codec_cache_file =
          environment.located
            (json_string s.media (codes "codecCacheFile") (codes "../state/video-codec-cache.tsv"));
    })

  -- `none`: the file cannot be read.
  unfoldable pub load_config : Option Bytes → Result Config
  unfolding read_config
  load_config none = throw 500 config_not_found
  load_config (some json) = do
    config ← read_config (sections json)
    guard (is_valid (json_string json (codes "sdktype") (codes "hcnetsdk")) config) 500
        invalid_config
    ok config
