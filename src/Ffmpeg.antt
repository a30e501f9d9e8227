-- ===== src/Ffmpeg.antt =====
-- The FFmpeg process of a stream: the backend, the command line and the two reading loops of class
-- FfmpegProcess and class FfmpegHardwareAcceleration of cpp-sdk-http-bridge-linux/src/main.cpp. The
-- process itself, its pipes and the clock are outside: what they do in each turn of a loop is given.
pub mod Process
pub mod Arguments
pub mod Ready
use hik_hcnet_http_bridge.Common.{
  ℕ, ◌+◌, ◌*◌, Bool, true, false, ◌&&◌, ◌||◌, not, List, [], ◌∷◌, ◌++◌, Option, none, some, leb,
  ◌==◌, if◌then◌else◌, length,
}
use hik_hcnet_http_bridge.Text.{Bytes, codes, equal}
use hik_hcnet_http_bridge.Error.{
  Fault, Result, ok, err, throw, ffmpeg_no_media_fragment, ffmpeg_no_mp4, ffmpeg_output_timeout,
}
use hik_hcnet_http_bridge.Request.{StreamRequest, normal_speed}
use hik_hcnet_http_bridge.Mp4.{contains_atom}

pub data VideoOutputMode : Type 0 where
  copy h264_transcode : VideoOutputMode

pub data HardwareBackend : Type 0 where
  no_backend nvidia_nvenc intel_qsv amd_amf : HardwareBackend

pub record FfmpegTranscodePlan : Type 0 where
  pub hardware_enabled : Bool
  pub backend_name : Bytes
  pub video_encoder : Bytes

-- `return {}`
abbrev pub software_plan : FfmpegTranscodePlan
software_plan = record {
  hardware_enabled = false;
  backend_name = codes "software";
  video_encoder = [];
}

abbrev pub hardware_plan : HardwareBackend → FfmpegTranscodePlan
hardware_plan no_backend = software_plan
hardware_plan nvidia_nvenc = record {
  hardware_enabled = true;
  backend_name = codes "nvidia-nvenc";
  video_encoder = codes "h264_nvenc";
}
hardware_plan intel_qsv = record {
  hardware_enabled = true;
  backend_name = codes "intel-qsv";
  video_encoder = codes "h264_qsv";
}
hardware_plan amd_amf = record {
  hardware_enabled = true;
  backend_name = codes "amd-amf";
  video_encoder = codes "h264_amf";
}

unfoldable pub select_plan : HardwareBackend → VideoOutputMode → Bool → FfmpegTranscodePlan
select_plan found copy force_software = software_plan
select_plan found h264_transcode force_software =
    if force_software then software_plan else hardware_plan found

unfoldable pub backend_name : HardwareBackend → Bytes
backend_name nvidia_nvenc = codes "nvidia-nvenc"
backend_name intel_qsv = codes "intel-qsv"
backend_name amd_amf = codes "amd-amf"
backend_name no_backend = codes "software"

-- The settings of Config that the command line reads.
pub record FfmpegConfig : Type 0 where
  pub log_level : Bytes
  pub video_encoder : Bytes
  pub video_preset : Bytes
  pub enable_audio : Bool

abbrev input_arguments : FfmpegConfig → List Bytes
input_arguments config =
    codes "-hide_banner"
    ∷ codes "-loglevel"
    ∷ config.log_level
    ∷ codes "-fflags"
    ∷ codes "+genpts+nobuffer"
    ∷ codes "-analyzeduration"
    ∷ codes "250000"
    ∷ codes "-probesize"
    ∷ codes "262144"
    ∷ codes "-i"
    ∷ codes "pipe:0"
    ∷ codes "-map"
    ∷ codes "0:v:0"
    ∷ []

abbrev encoder_arguments : FfmpegConfig → FfmpegTranscodePlan → List Bytes
encoder_arguments config plan =
    if not plan.hardware_enabled
    then codes "-c:v"
      ∷ config.video_encoder
      ∷ codes "-preset"
      ∷ config.video_preset
      ∷ codes "-tune"
      ∷ codes "zerolatency"
      ∷ codes "-pix_fmt"
      ∷ codes "yuv420p"
      ∷ []
    else if equal plan.video_encoder (codes "h264_nvenc")
    then codes "-c:v"
      ∷ codes "h264_nvenc"
      ∷ codes "-preset"
      ∷ codes "p4"
      ∷ codes "-tune"
      ∷ codes "ll"
      ∷ codes "-rc"
      ∷ codes "vbr"
      ∷ []
    else if equal plan.video_encoder (codes "h264_qsv")
    then codes "-c:v" ∷ codes "h264_qsv" ∷ codes "-preset" ∷ codes "veryfast" ∷ []
    else if equal plan.video_encoder (codes "h264_amf")
    then codes "-c:v"
      ∷ codes "h264_amf"
      ∷ codes "-usage"
      ∷ codes "lowlatency"
      ∷ codes "-quality"
      ∷ codes "speed"
      ∷ []
    else []

abbrev profile_arguments : List Bytes
profile_arguments =
    codes "-profile:v"
    ∷ codes "high"
    ∷ codes "-level:v"
    ∷ codes "4.1"
    ∷ codes "-g"
    ∷ codes "25"
    ∷ codes "-keyint_min"
    ∷ codes "25"
    ∷ codes "-sc_threshold"
    ∷ codes "0"
    ∷ []

module _ (print_speed : ℕ → Bytes) where
  abbrev speed_arguments : StreamRequest → List Bytes
  speed_arguments request =
      if request.speed == normal_speed
      then []
      else codes "-vf" ∷ (codes "setpts=PTS/" ++ print_speed request.speed) ∷ []

  unfoldable pub video_arguments :
      FfmpegConfig → StreamRequest → VideoOutputMode → FfmpegTranscodePlan → List Bytes
  video_arguments config request copy plan = codes "-c:v" ∷ codes "copy" ∷ []
  video_arguments config request h264_transcode plan =
      encoder_arguments config plan ++ (profile_arguments ++ speed_arguments request)

unfoldable pub audio_arguments : FfmpegConfig → StreamRequest → List Bytes
audio_arguments config request =
    if config.enable_audio && request.speed == normal_speed
    then codes "-map"
      ∷ codes "0:a:0?"
      ∷ codes "-c:a"
      ∷ codes "aac"
      ∷ codes "-ar"
      ∷ codes "48000"
      ∷ codes "-ac"
      ∷ codes "2"
      ∷ []
    else codes "-an" ∷ []

abbrev output_arguments : List Bytes
output_arguments =
    codes "-f"
    ∷ codes "mp4"
    ∷ codes "-movflags"
    ∷ codes "frag_keyframe+empty_moov+default_base_moof+omit_tfhd_offset"
    ∷ codes "-frag_duration"
    ∷ codes "250000"
    ∷ codes "pipe:1"
    ∷ []

-- How std::setprecision(8) prints a speed is the standard library's.
unfoldable pub build_arguments :
    (ℕ → Bytes) → FfmpegConfig → StreamRequest → VideoOutputMode → FfmpegTranscodePlan → List Bytes
unfolding video_arguments audio_arguments
build_arguments print_speed config request mode plan =
    input_arguments config
    ++ (video_arguments print_speed config request mode plan
        ++ (audio_arguments config request ++ output_arguments))

-- What a timed read of the output gives: no data yet, the end, or some bytes.
pub data Read : Type 0 where
  nothing ended : Read
  bytes : Bytes → Read

-- A turn of a reading loop: is the deadline past, what do its checkpoints throw, what is read?
pub record ReadTurn : Type 0 where
  pub late : Bool
  pub checked : Option Fault
  pub read : Read

abbrev pub is_initialized : Bytes → Bool
is_initialized data' = contains_atom (codes "ftyp") data' && contains_atom (codes "moov") data'

abbrev pub has_fragment : Bytes → Bool
has_fragment data' = contains_atom (codes "moof") data' && contains_atom (codes "mdat") data'

abbrev pub is_ready : Bool → Bytes → Bool
is_ready require_media_fragment data' =
    is_initialized data' && (not require_media_fragment || has_fragment data')

abbrev pub size_limit : ℕ
size_limit = 4 * 1024 * 1024

-- Behind the loop.
abbrev give_up : Bool → Bytes → Result Bytes
give_up require_media_fragment result =
    if require_media_fragment && is_initialized result
    then throw 504 ffmpeg_no_media_fragment
    else throw 502 ffmpeg_no_mp4

-- `if (check_client_) check_client_()` and what comes behind it
abbrev pub on_check : Option Fault → Result Bytes → Result Bytes
on_check none k = k
on_check (some e) k = err e

abbrev pub on_read : Result Bytes → Result Bytes → (Bytes → Result Bytes) → Read → Result Bytes
on_read again stop grown nothing = again
on_read again stop grown ended = stop
on_read again stop grown (bytes part) = grown part

-- Behind the turns that the clock allows the deadline is past.
unfoldable pub read_until_ready : Bool → Bytes → List ReadTurn → Result Bytes
read_until_ready require_media_fragment result [] = give_up require_media_fragment result
read_until_ready require_media_fragment result (turn ∷ turns) =
    let again = read_until_ready require_media_fragment result turns in
    let stop = give_up require_media_fragment result in
    let grown : Bytes → Result Bytes = λ part.
      let more = read_until_ready require_media_fragment (result ++ part) turns in
      if is_ready require_media_fragment (result ++ part) then ok (result ++ part) else more in
    if turn.late || leb size_limit (length result)
    then stop
    else on_check turn.checked (on_read again stop grown turn.read)

-- A turn of `read`: does the bridge still run?
pub record OutputTurn : Type 0 where
  pub running : Bool
  pub turn : ReadTurn

-- `read`: the bytes of one piece of the output, none of them at its end. Behind the turns the bridge
-- has stopped.
unfoldable pub read : List OutputTurn → Result Bytes
read [] = ok []
read (t ∷ ts) =
    let again = read ts in
    let part =
      if t.turn.late
      then throw 504 ffmpeg_output_timeout
      else on_read again (ok []) (λ part'. ok part') t.turn.read in
    if not t.running then ok [] else on_check t.turn.checked part
