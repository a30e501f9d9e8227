-- ===== src/Request.antt =====
-- The parameters of /video: StreamRequest, h264_copy_allowed, linux_h264_playback_transcode_policy
-- and parse_stream_request of cpp-sdk-http-bridge-linux/src/main.cpp, in the Linux build.
pub mod Bounds
pub mod RoundTrip
use hik_hcnet_http_bridge.Common.{
  ℕ, Bool, true, false, ◌&&◌, ◌||◌, not, List, [], ◌∷◌, Option, none, some, leb, ltb, ◌==◌,
  if◌then◌else◌, ℤ, pos, ltb_ℤ, leb_ℤ, ◌-ℤ◌, length,
}
use hik_hcnet_http_bridge.Text.{Bytes, codes, equal}
use hik_hcnet_http_bridge.Dict.{lookup}
use hik_hcnet_http_bridge.Error.{Result, ok, err, ◌>>=◌, ◌>>◌, guard, throw, invalid_parameter}
use hik_hcnet_http_bridge.Query.{Query, required, is_safe_session_id, parse_long, parse_int}

-- `enum class Option`
pub data StreamOption : Type 0 where
  real_play playback : StreamOption

pub data StreamKind : Type 0 where
  main sub : StreamKind

pub data ChannelType : Type 0 where
  auto analog digital digital_index : ChannelType

-- A playing speed is counted in sixteenths: every supported one is a whole number of them. Zero, which is
-- not supported, stands for NaN.
pub record StreamRequest : Type 0 where
  pub option : StreamOption
  pub ip : Bytes
  pub port : ℤ
  pub username : Bytes
  pub password : Bytes
  pub camera : ℤ
  pub channel_type : ChannelType
  pub stream : StreamKind
  pub speed : ℕ
  pub start : ℤ
  pub end : ℤ
  pub sid : Bytes
  pub generation : Bytes

abbrev pub normal_speed : ℕ
normal_speed = 16

abbrev pub is_real_play : StreamOption → Bool
is_real_play real_play = true
is_real_play playback = false

unfoldable pub h264_copy_allowed : StreamRequest → Bool
h264_copy_allowed request =
    if not (request.speed == normal_speed) then false else is_real_play request.option

unfoldable pub linux_h264_playback_transcode_policy : StreamRequest → Bool
linux_h264_playback_transcode_policy request = not (is_real_play request.option)

-- `query.count(name) ? query.at(name) : fallback`
abbrev pub value_or : Option Bytes → Bytes → Bytes
value_or none fallback = fallback
value_or (some value) fallback = value

parse_option : Bytes → Result StreamOption
parse_option text =
    if equal text (codes "realplay")
    then ok real_play
    else if equal text (codes "playback")
    then ok playback
    else throw 400 invalid_parameter

parse_channel_type : Bytes → Result ChannelType
parse_channel_type text =
    if equal text (codes "auto")
    then ok auto
    else if equal text (codes "analog")
    then ok analog
    else if equal text (codes "digital") || equal text (codes "ip")
    then ok digital
    else if equal text (codes "digitalIndex")
    then ok digital_index
    else throw 400 invalid_parameter

parse_stream : Bytes → Result StreamKind
parse_stream text =
    if equal text (codes "main")
    then ok main
    else if equal text (codes "sub")
    then ok sub
    else throw 400 invalid_parameter

-- 16, 8, 4, 2, 1, 1/2, 1/4, 1/8 and 1/16
unfoldable pub is_valid_speed : ℕ → Bool
is_valid_speed n =
    n == 256 || n == 128 || n == 64 || n == 32 || n == 16 || n == 8 || n == 4 || n == 2 || n == 1

abbrev pub nan_speed : ℕ
nan_speed = 0

-- A double: a whole number of sixteenths, NaN, or any other.
pub data Double : Type 0 where
  sixteenths : ℕ → Double
  nan other_double : Double

-- What std::stod does with a text: it throws (`none`), or returns a double.
abbrev pub Stod : Type 0
Stod = Bytes → Option Double

-- std::set::count finds NaN in every set that is not empty, since NaN is neither below nor above
-- anything.
valid_speed : Option Double → Result ℕ
valid_speed none = throw 400 invalid_parameter
valid_speed (some other_double) = throw 400 invalid_parameter
valid_speed (some nan) = ok nan_speed
valid_speed (some (sixteenths n)) = if is_valid_speed n then ok n else throw 400 invalid_parameter

abbrev is_digital_index : ChannelType → Bool
is_digital_index digital_index = true
is_digital_index _ = false

-- The long test on the parameters of the recorder.
abbrev out_of_range : ℤ → ℤ → ChannelType → Bytes → Bytes → Bytes → Bytes → Bool
out_of_range port camera channel_type ip username password sid =
    ltb_ℤ port (pos 1)
    || ltb_ℤ (pos 65535) port
    || ltb_ℤ camera (pos 0)
    || (not (is_digital_index channel_type) && ltb_ℤ camera (pos 1))
    || ltb 128 (length ip)
    || ltb 63 (length username)
    || ltb 63 (length password)
    || ltb 128 (length sid)
    || not (is_safe_session_id sid)

-- The start and the end of the recording: read for a playback alone.
parse_range : StreamOption → ℕ → Query → ℤ → Result (ℤ × ℤ)
parse_range real_play speed query max_playback_seconds = do
  guard (speed == normal_speed) 400 invalid_parameter
  ok (pos 0, pos 0)
parse_range playback speed query max_playback_seconds = do
  start_text ← required query (codes "start")
  start ← parse_long start_text
  end_text ← required query (codes "end")
  end ← parse_long end_text
  guard (not (ltb_ℤ start (pos 0) || leb_ℤ end start || ltb_ℤ max_playback_seconds (end -ℤ start)))
      400 invalid_parameter
  ok (start, end)

module _ (stod : Stod) where
  unfoldable pub parse_stream_request : Query → ℤ → Result StreamRequest
  unfolding parse_option parse_channel_type parse_stream valid_speed parse_range
  parse_stream_request query max_playback_seconds = do
    option_text ← required query (codes "option")
    option ← parse_option option_text
    ip ← required query (codes "ip")
    port_text ← required query (codes "port")
    port ← parse_int port_text
    username ← required query (codes "username")
    password ← required query (codes "password")
    camera_text ← required query (codes "camera")
    camera ← parse_int camera_text
    sid ← required query (codes "sid")
    channel_type ← parse_channel_type (value_or (lookup (codes "channelType") query) (codes "auto"))
    stream ← parse_stream (value_or (lookup (codes "stream") query) (codes "main"))
    speed ← valid_speed (stod (value_or (lookup (codes "speed") query) (codes "1")))
    guard (not (out_of_range port camera channel_type ip username password sid)) 400
        invalid_parameter
    range ← parse_range option speed query max_playback_seconds
    ok (record {
      option = option;
      ip = ip;
      port = port;
      username = username;
      password = password;
      camera = camera;
      channel_type = channel_type;
      stream = stream;
      speed = speed;
      start = range.0;
      end = range.1;
      sid = sid;
      generation = value_or (lookup (codes "generation") query) [];
    })
