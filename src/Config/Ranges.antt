-- ===== src/Config/Ranges.antt =====
-- A configuration that is loaded has every number in its range.
use hik_hcnet_http_bridge.Common.{
  ℕ, ◌≡◌, refl, Bool, true, false, ◌&&◌, ◌||◌, Option, none, some, if◌then◌else◌, ℤ, pos, ltb_ℤ,
  ◌≤ℤ◌, arith, ◌⊎◌, inl, inr,
}
use hik_hcnet_http_bridge.Text.{Bytes, codes, equal, eq_of_equal}
use hik_hcnet_http_bridge.Text.Stoll.{stoll}
use hik_hcnet_http_bridge.Error.{
  Fault, Result, ok, err, ◌>>=◌, ◌>>◌, guard, throw, bridge_error, invalid_config, config_not_found,
  Returns, guard-Returns,
}
use hik_hcnet_http_bridge.Query.{int32_min, int32_max}
use hik_hcnet_http_bridge.Config.Json.{
  json_value, stoi, int_of, json_int, bool_of, json_bool, json_string,
}
use hik_hcnet_http_bridge.Config.{
  Config, Environment, is_within, at_least, is_one_of, accelerations, is_valid, Sections, sections,
  read_config, load_config,
}

-- The file is missing or not valid.
abbrev pub Is500 : Fault → Type 0
Is500 e = (e ≡ bridge_error 500 invalid_config) ⊎ (e ≡ bridge_error 500 config_not_found)

-- The code throws such an exception only.
record Fails500 {A : Type 0} (r : Result A) : Type 0 where
  at : (e : Fault) → r ≡ err e → Is500 e

Fails500-ok : {A : Type 0} (a : A) → Fails500 (ok a)
Fails500-ok a = record { at = λ e h. cc h }

Fails500-invalid : {A : Type 0} → Fails500 {A = A} (throw 500 invalid_config)
Fails500-invalid = record { at = λ e h. inl (cc h) }

Fails500-bind :
    {A B : Type 0} (r : Result A) (f : A → Result B)
    → Fails500 r
    → ((a : A) → Fails500 (f a))
    → Fails500 (r >>= f)
Fails500-bind (ok a) f h k = k a
Fails500-bind (err e) f h k = record { at = λ e' p. h.at e' (cc p) }

Fails500-guard : (test : Bool) → Fails500 (guard test 500 invalid_config)
Fails500-guard true = record { at = λ e h. cc h }
Fails500-guard false = Fails500-invalid

Fails500-if :
    {A : Type 0} (test : Bool) (x y : Result A)
    → Fails500 x
    → Fails500 y
    → Fails500 (if test then x else y)
Fails500-if true x y h k = h
Fails500-if false x y h k = k

Fails500-json_int :
    (section name : Bytes) (fallback : ℤ) → Fails500 (json_int section name fallback)
unfolding json_int int_of stoi
Fails500-json_int section name fallback = go (json_value section name)
  where
    read : (v : Option (ℤ × ℕ)) → Fails500 (stoi v)
    read none = Fails500-invalid
    read (some (z, used)) =
        Fails500-if (ltb_ℤ z int32_min || ltb_ℤ int32_max z) _ _ Fails500-invalid (Fails500-ok z)

    go : (v : Option Bytes) → Fails500 (int_of v fallback)
    go none = Fails500-ok fallback
    go (some value) = read (stoll value)

Fails500-json_bool :
    (section name : Bytes) (fallback : Bool) → Fails500 (json_bool section name fallback)
unfolding json_bool bool_of
Fails500-json_bool section name fallback = go (json_value section name)
  where
    go : (v : Option Bytes) → Fails500 (bool_of v fallback)
    go none = Fails500-ok fallback
    go (some value) =
        Fails500-if (equal value (codes "true")) _ _ (Fails500-ok true)
          (Fails500-if (equal value (codes "false")) _ _ (Fails500-ok false) Fails500-invalid)

module _ (environment : Environment) where
  Fails500-read_config : (s : Sections) → Fails500 (read_config environment s)
  unfolding read_config
  Fails500-read_config s =
      search (Fails500-bind, Fails500-ok, Fails500-guard, Fails500-json_int, Fails500-json_bool)
        depth 60 fits 4000

abbrev pub Between : ℕ → ℕ → ℤ → Type 0
Between lo hi z = (pos lo ≤ℤ z) × (z ≤ℤ pos hi)

-- What the rest of the bridge relies on.
pub record IsInRange (c : Config) : Type 0 where
  pub bind : c.bind ≡ codes "127.0.0.1"
  pub port : Between 1 65535 c.port
  pub max_sessions : pos 1 ≤ℤ c.max_sessions
  pub max_http_connections : Between 1 4096 c.max_http_connections
  pub queue_bytes : pos 65536 ≤ℤ c.queue_bytes
  pub queue_backpressure_ms : Between 0 5000 c.queue_backpressure_ms
  pub codec_cache_seconds : Between 0 86400 c.codec_cache_seconds
  pub realplay_keyframe_interval_frames : Between 0 65535 c.realplay_keyframe_interval_frames
  pub connect_probe_timeout_ms : Between 100 10000 c.connect_probe_timeout_ms
  pub log_retention_days : pos 1 ≤ℤ c.log_retention_days
  pub max_playback_seconds : pos 1 ≤ℤ c.max_playback_seconds
  pub sdk_start_ms : pos 1 ≤ℤ c.sdk_start_ms
  pub first_media_ms : pos 1 ≤ℤ c.first_media_ms
  pub no_sdk_data_ms : pos 1 ≤ℤ c.no_sdk_data_ms
  pub output_stall_ms : Between 1000 600000 c.output_stall_ms
  pub client_write_stall_ms : Between 1000 600000 c.client_write_stall_ms
  pub playback_keep_alive_ms : Between 1000 5000 c.playback_keep_alive_ms
  pub output_video_codec : c.output_video_codec ≡ codes "h264"
  pub hardware_probe_timeout_ms : Between 1000 30000 c.hardware_probe_timeout_ms
  pub hardware_acceleration : is_one_of c.hardware_acceleration accelerations ≡ true

both : (a b : Bool) → a && b ≡ true → (a ≡ true) × (b ≡ true)
both true b h = (refl, h)
both false b h = absurd (false_ne h)
  where
    false_ne : false ≡ true → ⊥
    false_ne e = cc e

between : (lo hi : ℕ) (z : ℤ) → is_within lo hi z ≡ true → Between lo hi z
between lo hi z h = ground arith

from_least : (lo : ℕ) (z : ℤ) → at_least lo z ≡ true → pos lo ≤ℤ z
from_least lo z h = ground arith

is_valid-IsInRange : (sdk_type : Bytes) (c : Config) → is_valid sdk_type c ≡ true → IsInRange c
unfolding is_valid
is_valid-IsInRange sdk_type c h =
    let (_, h0) = both _ _ h in
    let (bind', h1) = both _ _ h0 in
    let (port', h2) = both _ _ h1 in
    let (max_sessions', h3) = both _ _ h2 in
    let (max_http_connections', h4) = both _ _ h3 in
    let (queue_bytes', h5) = both _ _ h4 in
    let (queue_backpressure_ms', h6) = both _ _ h5 in
    let (codec_cache_seconds', h7) = both _ _ h6 in
    let (realplay_keyframe_interval_frames', h8) = both _ _ h7 in
    let (connect_probe_timeout_ms', h9) = both _ _ h8 in
    let (_, h10) = both _ _ h9 in
    let (log_retention_days', h11) = both _ _ h10 in
    let (max_playback_seconds', h12) = both _ _ h11 in
    let (sdk_start_ms', h13) = both _ _ h12 in
    let (first_media_ms', h14) = both _ _ h13 in
    let (no_sdk_data_ms', h15) = both _ _ h14 in
    let (output_stall_ms', h16) = both _ _ h15 in
    let (client_write_stall_ms', h17) = both _ _ h16 in
    let (playback_keep_alive_ms', h18) = both _ _ h17 in
    let (_, h19) = both _ _ h18 in
    let (output_video_codec', h20) = both _ _ h19 in
    let (_, h21) = both _ _ h20 in
    let (_, h22) = both _ _ h21 in
    let (hardware_probe_timeout_ms', h23) = both _ _ h22 in
    record {
      bind = eq_of_equal c.bind (codes "127.0.0.1") bind';
      port = between 1 65535 c.port port';
      max_sessions = from_least 1 c.max_sessions max_sessions';
      max_http_connections = between 1 4096 c.max_http_connections max_http_connections';
      queue_bytes = from_least 65536 c.queue_bytes queue_bytes';
      queue_backpressure_ms = between 0 5000 c.queue_backpressure_ms queue_backpressure_ms';
      codec_cache_seconds = between 0 86400 c.codec_cache_seconds codec_cache_seconds';
      realplay_keyframe_interval_frames =
          between 0 65535 c.realplay_keyframe_interval_frames realplay_keyframe_interval_frames';
      connect_probe_timeout_ms =
          between 100 10000 c.connect_probe_timeout_ms connect_probe_timeout_ms';
      log_retention_days = from_least 1 c.log_retention_days log_retention_days';
      max_playback_seconds = from_least 1 c.max_playback_seconds max_playback_seconds';
      sdk_start_ms = from_least 1 c.sdk_start_ms sdk_start_ms';
      first_media_ms = from_least 1 c.first_media_ms first_media_ms';
      no_sdk_data_ms = from_least 1 c.no_sdk_data_ms no_sdk_data_ms';
      output_stall_ms = between 1000 600000 c.output_stall_ms output_stall_ms';
      client_write_stall_ms = between 1000 600000 c.client_write_stall_ms client_write_stall_ms';
      playback_keep_alive_ms = between 1000 5000 c.playback_keep_alive_ms playback_keep_alive_ms';
      output_video_codec = eq_of_equal c.output_video_codec (codes "h264") output_video_codec';
      hardware_probe_timeout_ms =
          between 1000 30000 c.hardware_probe_timeout_ms hardware_probe_timeout_ms';
      hardware_acceleration = h23;
    }

-- A file that is missing or not valid is answered by 500; from any other one, load_config returns a
-- configuration that listens on 127.0.0.1 only and whose port, counts, sizes and times are within
-- the documented bounds, whatever the file says.
pub load_config-IsInRange :
    (environment : Environment) (file : Option Bytes)
    → Returns IsInRange Is500 (load_config environment file)
unfolding load_config
load_config-IsInRange environment none = inr refl
load_config-IsInRange environment (some json) =
    from_read (read_config environment (sections json))
      (Fails500-read_config environment (sections json))
  where
    from_read :
        (r : Result Config)
        → Fails500 r
        → Returns IsInRange Is500 (
            r >>= λ config.
            guard
              (is_valid (json_string json (codes "sdktype") (codes "hcnetsdk")) config)
              500
              invalid_config
            >> ok config)
    from_read (err e) h = h.at e refl
    from_read (ok config) h =
        guard-Returns IsInRange Is500
          (is_valid (json_string json (codes "sdktype") (codes "hcnetsdk")) config) 500
          invalid_config (ok config) (λ _. inl refl) (is_valid-IsInRange _ config)
