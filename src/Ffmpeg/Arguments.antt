-- ===== src/Ffmpeg/Arguments.antt =====
-- The encoder that the command line names.
use hik_hcnet_http_bridge.Common.{ℕ, ◌≡◌, refl, Bool, true, false, [], ◌∷◌, take}
use hik_hcnet_http_bridge.Text.{Bytes, codes, equal}
use hik_hcnet_http_bridge.Request.{StreamRequest}
use hik_hcnet_http_bridge.Ffmpeg.{
  VideoOutputMode, copy, h264_transcode, HardwareBackend, no_backend, nvidia_nvenc, intel_qsv,
  amd_amf, select_plan, FfmpegConfig, video_arguments,
}

-- The encoder that a stream is to have.
abbrev pub encoder : FfmpegConfig → HardwareBackend → VideoOutputMode → Bool → Bytes
encoder config found copy force_software = codes "copy"
encoder config found h264_transcode true = config.video_encoder
encoder config no_backend h264_transcode false = config.video_encoder
encoder config nvidia_nvenc h264_transcode false = codes "h264_nvenc"
encoder config intel_qsv h264_transcode false = codes "h264_qsv"
encoder config amd_amf h264_transcode false = codes "h264_amf"

-- The plan and the command line agree: whatever the backend, the mode and the wish for software, the
-- options of the video begin with the codec that the stream is to have, so no plan leaves FFmpeg to
-- choose one, and a copy is never encoded.
pub video_arguments-select_plan :
    (print_speed : ℕ → Bytes) (config : FfmpegConfig) (request : StreamRequest)
    (found : HardwareBackend) (mode : VideoOutputMode) (force_software : Bool)
    → take 2
        (video_arguments print_speed config request mode (select_plan found mode force_software))
      ≡ codes "-c:v" ∷ encoder config found mode force_software ∷ []
unfolding video_arguments select_plan equal
video_arguments-select_plan p config request found copy b = refl
video_arguments-select_plan p config request found h264_transcode true = refl
video_arguments-select_plan p config request no_backend h264_transcode false = refl
video_arguments-select_plan p config request nvidia_nvenc h264_transcode false = refl
video_arguments-select_plan p config request intel_qsv h264_transcode false = refl
video_arguments-select_plan p config request amd_amf h264_transcode false = refl
