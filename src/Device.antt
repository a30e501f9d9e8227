-- ===== src/Device.antt =====
-- A session with the recorder: class HcSession of cpp-sdk-http-bridge-linux/src/main.cpp, its
-- login, its start and its end. The SDK, the network probe and the clock are not the bridge's:
-- what they answer comes with each call, and the calls of the SDK that open or close something are
-- written down in order.
pub mod Stream
pub mod Holding
pub mod Starting
pub mod Release
pub mod KeepAlive
use hik_hcnet_http_bridge.Common.{
  ℕ, zero, suc, ◌+◌, ◌-◌, ◌*◌, ◌^◌, Bool, true, false, ◌&&◌, ◌||◌, not, List, [], ◌∷◌, ◌++◌, Option,
  none, some, leb, ltb, ◌==◌, if◌then◌else◌, ℤ, pos, has_value,
}
use hik_hcnet_http_bridge.Error.{
  Result, ok, err, Fault, bridge_error, throw, nvr_unreachable, sdk_login_failed,
  sdk_stream_timeout, sdk_realplay_failed, sdk_playback_failed, sdk_callback_failed,
  sdk_playback_control_failed, media_queue_overflow,
}
use hik_hcnet_http_bridge.Effect.{Effect, pure, ◌>>=◌, ◌>>◌, modify, lift, look, check, unless}
use hik_hcnet_http_bridge.EndReason.{StreamEndReason, active}
use hik_hcnet_http_bridge.MediaQueue.{ByteQueue, new_queue, close}
use hik_hcnet_http_bridge.Request.{
  StreamRequest, StreamOption, real_play, playback, is_real_play, normal_speed,
}
use hik_hcnet_http_bridge.Topology.{DeviceInfo, IpConfig, ResolvedChannelType, resolve, read}

pub data DetectedVideoCodec : Type 0 where
  unknown h264 h265 : DetectedVideoCodec

-- The calls that open or close something at the recorder, each with its handle.
pub data SdkCall : Type 0 where
  logs_in logs_out opens_stream stops_real_play stops_playback : ℕ → SdkCall

-- `none` stands for the handle -1.
pub record HcSession : Type 0 where
  pub queue : ByteQueue
  pub user : Option ℕ
  pub handle : Option ℕ
  pub stopped : Bool
  pub overflow : Bool
  pub end_reason : StreamEndReason
  pub sdk_bytes : ℕ
  pub header_packets : ℕ
  pub media_packets : ℕ
  pub resolved_channel_type : ResolvedChannelType
  pub sdk_camera : ℤ
  pub keep_alive_failures : ℕ
  pub prepared : Bool
  pub stream_started : Bool
  pub configured_video_codec : DetectedVideoCodec
  pub first_data : Bool
  pub calls : List SdkCall

unfoldable pub new_session : ℕ → HcSession
new_session queue_bytes = record {
  queue = new_queue queue_bytes;
  user = none;
  handle = none;
  stopped = false;
  overflow = false;
  end_reason = active;
  sdk_bytes = 0;
  header_packets = 0;
  media_packets = 0;
  resolved_channel_type = ResolvedChannelType.unknown;
  sdk_camera = pos 0;
  keep_alive_failures = 0;
  prepared = false;
  stream_started = false;
  configured_video_codec = unknown;
  first_data = false;
  calls = [];
}

-- The settings of Config that a session reads.
pub record DeviceConfig : Type 0 where
  pub max_channum_v30 : ℕ
  pub read_video_codec_from_device : Bool
  pub realplay_keyframe_interval_frames : ℕ

-- What the SDK says of the encoder of the channel: its type and its interval of I frames.
pub record Compression : Type 0 where
  pub video_enc_type : ℕ
  pub interval_frame_i : ℕ

-- NET_DVR_Login_V40: a user, or an error number.
pub data Login : Type 0 where
  accepted : ℕ → Login
  refused : ℕ → Login

-- What the outside answers while prepare runs; `checks` are its five checkpoints.
pub record Answers : Type 0 where
  pub checks : ℕ → Option Fault
  pub probe : Result (Unit {0})
  pub login : Login
  pub device : DeviceInfo
  pub ip_config : Option IpConfig
  pub compression : Option Compression

codec_of : ℕ → DetectedVideoCodec
codec_of type = if type == 10 then h265 else if type == 0 || type == 1 then h264 else unknown

-- read_video_stream_configuration, as far as the bridge keeps it.
unfoldable pub read_video_stream_configuration :
    DeviceConfig → StreamRequest → Option Compression → DetectedVideoCodec → DetectedVideoCodec
unfolding codec_of
read_video_stream_configuration config request none before = before
read_video_stream_configuration config request (some selected) before =
    if config.read_video_codec_from_device then codec_of selected.video_enc_type else before

-- The interval that it asks the recorder to set, if any.
unfoldable pub requested_interval : DeviceConfig → StreamRequest → Compression → Option ℕ
requested_interval config request selected =
    let requested = config.realplay_keyframe_interval_frames in
    let current = selected.interval_frame_i in
    if not (is_real_play request.option) || requested == 0
    then none
    else if not (current == 0) && not (current == 0xfffe) && leb current requested
    then none
    else some requested

abbrev pub SessionEffect : Type 0 → Type 0
SessionEffect = Effect HcSession

unfoldable pub log_in : Login → SessionEffect (Unit {0})
log_in (accepted user) s =
    (record s { user = some user; calls = s.calls ++ logs_in user ∷ [] }, ok tt)
log_in (refused error) s = (record s { user = none }, ok tt)

-- The error is looked at behind the checkpoint that follows the login.
unfoldable pub login_error : Login → Result (Unit {0})
login_error (accepted user) = ok tt
login_error (refused error) =
    if error == 7 then throw 502 nvr_unreachable else throw 502 sdk_login_failed

module _ (config : DeviceConfig) (request : StreamRequest) where
  unfoldable pub first_prepare : Answers → SessionEffect (Unit {0})
  unfolding log_in login_error
  first_prepare answers = do
    lift answers.probe
    check (answers.checks 1)
    log_in answers.login
    check (answers.checks 2)
    lift (login_error answers.login)
    check (answers.checks 3)
    channel ← lift (
        resolve config.max_channum_v30 (read answers.device answers.ip_config) request.camera
          request.channel_type)
    modify λ s. record s {
      sdk_camera = channel.0;
      resolved_channel_type = channel.1;
      configured_video_codec =
          read_video_stream_configuration config request answers.compression
            s.configured_video_codec;
    }
    check (answers.checks 4)
    modify λ s. record s { prepared = true }

  unfoldable pub prepare : Answers → SessionEffect (Unit {0})
  unfolding first_prepare
  prepare answers = do
    check (answers.checks 0)
    look (λ s. s.prepared) λ done. unless done (first_prepare answers)

-- What the outside answers while the stream starts: the handle of the stream or a refusal, whether
-- the callback can be set, and each control command's success.
pub record StartAnswers : Type 0 where
  pub checks : ℕ → Option Fault
  pub opened : Option ℕ
  pub callback_set : Bool
  pub controls : ℕ → Bool

unfoldable pub open_stream : Option ℕ → Result (Unit {0}) → SessionEffect (Unit {0})
open_stream none failure s = (record s { handle = none }, failure)
open_stream (some handle) failure s =
    (record s { handle = some handle; calls = s.calls ++ opens_stream handle ∷ [] }, ok tt)

-- |log2(speed)|, rounded: the speed is counted in sixteenths, and only supported ones
-- come here; what std::llround makes of NaN is not specified, and taken to be zero.
unfoldable pub speed_steps : ℕ → ℕ
speed_steps n =
    if n == 256 || n == 1
    then 4
    else if n == 128 || n == 2
    then 3
    else if n == 64 || n == 4
    then 2
    else if n == 32 || n == 8
    then 1
    else 0

pub data Control : Type 0 where
  play_start play_fast play_slow : Control

repeated : ℕ → Control → List Control
repeated zero c = []
repeated (suc n) c = c ∷ repeated n c

-- The control commands of a playback, in order.
unfoldable pub controls_of : ℕ → List Control
unfolding speed_steps repeated
controls_of speed =
    play_start
    ∷ (if speed == normal_speed
        then []
        else repeated (speed_steps speed) (if ltb normal_speed speed then play_fast else play_slow))

-- Each command in turn, up to the first that fails.
send_controls : (ℕ → Bool) → ℕ → List Control → Result (Unit {0})
send_controls answers n [] = ok tt
send_controls answers n (c ∷ cs) =
    let rest = send_controls answers (n + 1) cs in
    if answers n then rest else throw 502 sdk_playback_control_failed

unfoldable pub set_callback : Bool → Result (Unit {0})
set_callback done = if done then ok tt else throw 502 sdk_callback_failed

unfoldable pub play : StartAnswers → StreamRequest → Result (Unit {0})
unfolding send_controls
play answers request = send_controls answers.controls 0 (controls_of request.speed)

unfoldable pub start_stream : StreamRequest → StartAnswers → StreamOption → SessionEffect (Unit {0})
unfolding open_stream set_callback play
start_stream request answers real_play = open_stream answers.opened (throw 502 sdk_realplay_failed)
start_stream request answers playback = do
  open_stream answers.opened (throw 502 sdk_playback_failed)
  lift (set_callback answers.callback_set)
  lift (play answers request)

-- A turn of the wait for the first data: what its checkpoint throws, whether the deadline is past,
-- and what the callback has done to the session when it is over.
pub record WaitTurn : Type 0 where
  pub checked : Option Fault
  pub late : Bool
  pub meanwhile : HcSession → HcSession

-- Behind the turns that the clock allows the deadline is past.
unfoldable pub wait_for_data : List WaitTurn → SessionEffect (Unit {0})
wait_for_data [] s =
    if s.first_data || s.overflow then (s, ok tt) else (s, throw 504 sdk_stream_timeout)
wait_for_data (turn ∷ turns) s =
    let again = wait_for_data turns (turn.meanwhile s) in
    let timed = if turn.late then (s, throw 504 sdk_stream_timeout) else again in
    if s.first_data || s.overflow
    then (s, ok tt)
    else elim turn.checked [ none ↦ timed | some e ↦ (s, err e) ]

unfoldable pub fail_on_overflow : SessionEffect (Unit {0})
fail_on_overflow =
    look (λ s. s.overflow) λ overflow. unless (not overflow) (lift (throw 502 media_queue_overflow))

unfoldable pub first_start : StreamRequest → StartAnswers → SessionEffect (Unit {0})
unfolding start_stream
first_start request answers =
    look (λ s. s.stream_started)
      λ started. unless started (do
        start_stream request answers request.option
        modify (λ s. record s { stream_started = true }))

-- The wait, and the tests behind it.
unfoldable pub await_data : StartAnswers → List WaitTurn → SessionEffect (Unit {0})
unfolding wait_for_data fail_on_overflow
await_data answers turns = do wait_for_data turns; check (answers.checks 1); fail_on_overflow

module _ (config : DeviceConfig) (request : StreamRequest) where
  unfoldable pub start_stream_and_wait_for_data :
      Answers → StartAnswers → List WaitTurn → SessionEffect (Unit {0})
  unfolding first_start await_data
  start_stream_and_wait_for_data answers started turns = do
    prepare config request answers
    check (started.checks 0)
    first_start request started
    await_data started turns

  unfoldable pub start : Answers → Answers → StartAnswers → List WaitTurn → SessionEffect (Unit {0})
  start answers again started turns = do
    prepare config request answers
    start_stream_and_wait_for_data again started turns

abbrev handle_closing : StreamOption → Option ℕ → List SdkCall
handle_closing option none = []
handle_closing real_play (some handle) = stops_real_play handle ∷ []
handle_closing playback (some handle) = stops_playback handle ∷ []

abbrev user_closing : Option ℕ → List SdkCall
user_closing none = []
user_closing (some user) = logs_out user ∷ []

-- The end of the session, in its destructor: the stream, then the login.
unfoldable pub stop : StreamRequest → HcSession → HcSession
stop request s = if s.stopped then s else record s {
  stopped = true;
  queue = close s.queue;
  handle = none;
  user = none;
  calls = s.calls ++ (handle_closing request.option s.handle ++ user_closing s.user);
}
