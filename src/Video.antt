-- ===== src/Video.antt =====
-- How the pipeline of one client is set up: handle_video of cpp-sdk-http-bridge-linux/src/main.cpp, from
-- the first login to the first media fragment. A session is that of Device; of an FFmpeg process the
-- pipeline keeps its number and whether it uses hardware, and what the process does is given from
-- outside. What the threads of the SDK do to a session between the calls of the pipeline is left out.
pub mod Parts
pub mod Sound
pub mod Balance
pub mod Copying
pub mod Ready
use hik_hcnet_http_bridge.Common.{
  ℕ, ◌+◌, Bool, true, false, ◌&&◌, ◌||◌, not, List, [], ◌∷◌, ◌++◌, Option, none, some,
  if◌then◌else◌, ℤ, has_value,
}
use hik_hcnet_http_bridge.Text.{Bytes}
use hik_hcnet_http_bridge.Error.{Fault, Result, ok, err, other_exception}
use hik_hcnet_http_bridge.Effect.{
  Effect, pure, ◌>>=◌, ◌>>◌, modify, lift, look, unless, either, catching,
}
use hik_hcnet_http_bridge.Request.{StreamRequest, h264_copy_allowed}
use hik_hcnet_http_bridge.Device.{
  DetectedVideoCodec, unknown, h264, h265, HcSession, new_session, DeviceConfig, Answers,
  StartAnswers, WaitTurn, prepare, start, stop, SessionEffect,
}
use hik_hcnet_http_bridge.Mp4.{detect_video_codec}
use hik_hcnet_http_bridge.Ffmpeg.{
  VideoOutputMode, copy, h264_transcode, HardwareBackend, select_plan, ReadTurn, read_until_ready,
}
use hik_hcnet_http_bridge.CodecCache.{Entries, try_get, set}

-- A running FFmpeg process: which one it is, and `hardware_enabled()`.
pub record Process : Type 0 where
  pub number : ℕ
  pub hardware_enabled : Bool

pub record Pipeline : Type 0 where
  pub session : Option HcSession
  pub ffmpeg : Option Process
  pub probe : Option Process
  pub prefix : Bytes
  pub detected_codec : DetectedVideoCodec
  pub output_mode : VideoOutputMode
  pub restart_session_after_probe : Bool
  pub entries : Entries
  -- the sessions that were destroyed, as their destructor left them
  pub released : List HcSession
  -- how many sessions and processes were made
  pub sessions : ℕ
  pub processes : ℕ

pub record Starting : Type 0 where
  pub first : Answers
  pub again : Answers
  pub answers : StartAnswers
  pub turns : List WaitTurn

-- What the outside answers: by the number of the session or of the process.
pub record Outside : Type 0 where
  pub preparing : ℕ → Answers
  pub starting : ℕ → Starting
  pub spawning : ℕ → Option Fault
  pub initial : ℕ → List ReadTurn
  pub first_media : ℕ → List ReadTurn

-- The settings that the set-up reads.
pub record VideoConfig : Type 0 where
  pub device : DeviceConfig
  pub queue_bytes : ℕ
  pub codec_cache_ttl : ℤ
  pub backend : HardwareBackend
  pub now : ℤ

abbrev pub is_h264 : DetectedVideoCodec → Bool
is_h264 h264 = true
is_h264 _ = false

abbrev pub is_h265 : DetectedVideoCodec → Bool
is_h265 h265 = true
is_h265 _ = false

abbrev pub is_unknown : DetectedVideoCodec → Bool
is_unknown unknown = true
is_unknown _ = false

abbrev pub is_copy : VideoOutputMode → Bool
is_copy copy = true
is_copy h264_transcode = false

abbrev pub new_pipeline : Entries → Pipeline
new_pipeline entries = record {
  session = none;
  ffmpeg = none;
  probe = none;
  prefix = [];
  detected_codec = unknown;
  output_mode = h264_transcode;
  restart_session_after_probe = false;
  entries = entries;
  released = [];
  sessions = 0;
  processes = 0;
}

unfoldable pub on_held : Option HcSession → SessionEffect (Unit {0}) → Effect Pipeline (Unit {0})
on_held none m s = (s, err other_exception)
on_held (some h) m s = (record s { session = some (m h).0 }, (m h).1)

-- A call of the session; there is one wherever the code calls it.
unfoldable pub on_session : SessionEffect (Unit {0}) → Effect Pipeline (Unit {0})
unfolding on_held
on_session m s = on_held s.session m s

abbrev pub hardware_of : Option Process → Bool
hardware_of none = false
hardware_of (some p) = p.hardware_enabled

abbrev pub configured_of : Option HcSession → DetectedVideoCodec
configured_of none = unknown
configured_of (some h) = h.configured_video_codec

abbrev pub started_of : Option HcSession → Bool
started_of none = false
started_of (some h) = h.stream_started

unfoldable pub spawned : Option Fault → ℕ → Bool → Effect Pipeline Process
spawned (some e) number hardware s = (s, err e)
spawned none number hardware s = (s, ok (record { number = number; hardware_enabled = hardware }))

module _ (config : VideoConfig) (request : StreamRequest) (outside : Outside) where
  abbrev pub make_session : Pipeline → Pipeline
  make_session s = record s {
    session = some (new_session config.queue_bytes);
    sessions = s.sessions + 1;
  }

  abbrev pub released_of : Option HcSession → Pipeline → Pipeline
  released_of none s = s
  released_of (some h) s = record s { session = none; released = s.released ++ stop request h ∷ [] }

  -- session.reset()
  abbrev pub reset_session : Pipeline → Pipeline
  reset_session s = released_of s.session s

  unfoldable pub close_session : Effect Pipeline (Unit {0})
  close_session = modify reset_session

  unfoldable pub prepare_session : Effect Pipeline (Unit {0})
  unfolding on_session
  prepare_session =
      look (λ s. s.sessions) λ n. on_session (prepare config.device request (outside.preparing n))

  unfoldable pub start_session : Effect Pipeline (Unit {0})
  unfolding on_session
  start_session =
      look (λ s. outside.starting s.sessions)
        λ a. on_session (start config.device request a.first a.again a.answers a.turns)

  unfoldable pub open_session : Effect Pipeline (Unit {0})
  unfolding prepare_session
  open_session = modify make_session >> prepare_session

  unfoldable pub reopen_session : Effect Pipeline (Unit {0})
  unfolding close_session open_session
  reopen_session = close_session >> open_session

  -- The constructor of FfmpegProcess.
  unfoldable pub spawn : VideoOutputMode → Bool → Effect Pipeline Process
  unfolding spawned
  spawn mode force_software s =
      spawned (outside.spawning s.processes) s.processes
        (select_plan config.backend mode force_software).hardware_enabled
        (record s { processes = s.processes + 1 })

  abbrev pub remember : DetectedVideoCodec → Pipeline → Pipeline
  remember codec s = record s {
    detected_codec = codec;
    entries = set config.codec_cache_ttl config.now request codec s.entries;
  }

  -- The probe becomes the output, or the session has to start again.
  unfoldable pub keep_probe : Bytes → Effect Pipeline (Unit {0})
  keep_probe probe_prefix =
      look (λ s. is_h264 s.detected_codec)
        λ avc.
          either (avc && h264_copy_allowed request)
            (modify λ s. record s { prefix = probe_prefix; ffmpeg = s.probe; probe = none })
            (either avc (modify λ s. record s { restart_session_after_probe = true }) (pure tt))

  unfoldable pub probe_codec : Effect Pipeline (Unit {0})
  unfolding start_session spawn keep_probe
  probe_codec = do
    start_session
    process ← spawn copy false
    modify (λ s. record s { probe = some process })
    probe_prefix ← lift (read_until_ready false [] (outside.initial process.number))
    modify (remember (detect_video_codec probe_prefix))
    keep_probe probe_prefix

  -- The codec from the cache, from the recorder's configuration, or from a probe.
  unfoldable pub chosen : Option DetectedVideoCodec → Effect Pipeline (Unit {0})
  unfolding probe_codec
  chosen (some codec) = modify (λ s. record s { detected_codec = codec })
  chosen none =
      look (λ s. configured_of s.session)
        λ codec. either (is_unknown codec) probe_codec (modify (remember codec))

  unfoldable pub choose_codec : Effect Pipeline (Unit {0})
  unfolding chosen
  choose_codec = do
    (entries, hit) ← look (λ s. try_get config.codec_cache_ttl config.now request s.entries) pure
    modify (λ s. record s { entries = entries })
    chosen hit

  -- The output mode; a probe that does not become the output is stopped.
  abbrev pub decide : Pipeline → Pipeline
  decide s = record s {
    output_mode =
        if is_h264 s.detected_codec && h264_copy_allowed request then copy else h264_transcode;
    probe = none;
  }

  unfoldable pub restart_session : Effect Pipeline (Unit {0})
  unfolding reopen_session open_session start_session
  restart_session = do
    look (λ s. not s.restart_session_after_probe) λ keep. unless keep reopen_session
    look (λ s. has_value s.session) λ there. unless there open_session
    look (λ s. started_of s.session) λ started. unless started start_session

  unfoldable pub start_pipeline : VideoOutputMode → Bool → Effect Pipeline (Unit {0})
  unfolding spawn
  start_pipeline mode force_software = do
    process ← look (λ s. is_h265 s.detected_codec) λ hevc. spawn mode (force_software || not hevc)
    modify (λ s. record s { ffmpeg = some process })
    prefix ← lift (read_until_ready true [] (outside.first_media process.number))
    modify (λ s. record s { prefix = prefix })

  -- stop_for_pipeline_switch() and reset()
  abbrev pub reset_ffmpeg : Pipeline → Pipeline
  reset_ffmpeg s = record s { ffmpeg = none }

  -- Behind a failed transcoding: the software encoder, if hardware was used.
  unfoldable pub retry_in_software : Fault → Effect Pipeline (Unit {0})
  unfolding start_pipeline
  retry_in_software e =
      look (λ s. s)
        λ s.
          either (hardware_of s.ffmpeg) (modify reset_ffmpeg >> start_pipeline s.output_mode true)
            (lift (err e))

  unfoldable pub read_media : Process → Effect Pipeline (Unit {0})
  read_media process = do
    prefix ←
        look (λ s. s.prefix)
          λ before. lift (read_until_ready true before (outside.first_media process.number))
    modify (λ s. record s { prefix = prefix })

  -- A copy that gives no fragment asks for the fallback.
  unfoldable pub ask_fallback : (Fault → Effect Pipeline (Unit {0})) → Fault → Effect Pipeline Bool
  ask_fallback otherwise e =
      look (λ s. is_copy s.output_mode)
        λ copies. either copies (pure true) (otherwise e >> pure false)

  -- The first media fragment of the reused probe or of a new process; the answer is
  -- copy_fallback_required.
  unfoldable pub first_output : Option Process → Effect Pipeline Bool
  unfolding ask_fallback read_media start_pipeline retry_in_software
  first_output (some process) =
      catching (read_media process >> pure false) (ask_fallback (λ e. lift (err e)))
  first_output none =
      catching (look (λ s. s.output_mode) λ mode. start_pipeline mode false >> pure false)
        (ask_fallback retry_in_software)

  abbrev pub transcode : Pipeline → Pipeline
  transcode s = record s { output_mode = h264_transcode }

  unfoldable pub fall_back : Effect Pipeline (Unit {0})
  unfolding reopen_session start_session start_pipeline
  fall_back = do
    modify reset_ffmpeg
    reopen_session
    start_session
    modify transcode
    start_pipeline h264_transcode true

  -- The initialization segment shows H.265 where a copy was meant.
  abbrev pub is_mistaken : Pipeline → Bool
  is_mistaken s = is_copy s.output_mode && is_h265 (detect_video_codec s.prefix)

  unfoldable pub switch_codec : Effect Pipeline (Unit {0})
  unfolding start_pipeline retry_in_software
  switch_codec = do
    modify (remember h265)
    modify reset_ffmpeg
    modify transcode
    catching (start_pipeline h264_transcode false) retry_in_software

  unfoldable pub check_codec : Effect Pipeline (Unit {0})
  unfolding switch_codec
  check_codec = look is_mistaken λ mistaken. unless (not mistaken) switch_codec

  -- What follows the first session: the codec and the output mode, the first fragment, and the ways
  -- out if it does not come or shows another codec.
  unfoldable pub opened : Effect Pipeline (Unit {0})
  unfolding choose_codec restart_session first_output fall_back check_codec
  opened = do
    choose_codec
    modify decide
    restart_session
    required ← look (λ s. s.ffmpeg) first_output
    unless (not required) fall_back
    check_codec

  -- All that comes before the first byte of the response.
  unfoldable pub set_up : Effect Pipeline (Unit {0})
  unfolding open_session opened
  set_up = open_session >> opened

  -- The destructor of Cleanup.
  unfoldable pub finish : Pipeline → Pipeline
  finish s = reset_session (record s { probe = none; ffmpeg = none })
