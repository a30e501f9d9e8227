-- ===== src/Examples/Ffmpeg.antt =====
-- The start of FFmpeg, on concrete inputs.
use hik_hcnet_http_bridge.Common.{◌≡◌, refl, true, false, List, [], ◌∷◌, none}
use hik_hcnet_http_bridge.Text.{codes}
use hik_hcnet_http_bridge.Error.{ok, Returns}
use hik_hcnet_http_bridge.Mp4.{contains_atom, find_atom}
use hik_hcnet_http_bridge.Ffmpeg.{
  FfmpegConfig, Read, nothing, ended, bytes, ReadTurn, read_until_ready,
}
use hik_hcnet_http_bridge.Ffmpeg.Ready.{IsStart, Fails, read_until_ready-IsStart}

abbrev ffmpeg_config : FfmpegConfig
ffmpeg_config = record {
  log_level = codes "warning";
  video_encoder = codes "libx264";
  video_preset = codes "veryfast";
  enable_audio = true;
}

abbrev pub read_turn : Read → ReadTurn
read_turn r = record { late = false; checked = none; read = r }

-- FFmpeg is silent once, then writes the start, then the first fragment.
abbrev pub turns : List ReadTurn
turns =
    read_turn nothing
    ∷ read_turn (bytes (codes "ftypmoov"))
    ∷ read_turn (bytes (codes "moofmdat"))
    ∷ read_turn ended
    ∷ []

read_until_ready-IsStart_example :
    Returns (IsStart true [] turns) (Fails true turns) (read_until_ready true [] turns)
read_until_ready-IsStart_example = read_until_ready-IsStart true [] turns

read_until_ready_run : read_until_ready true [] turns ≡ ok (codes "ftypmoovmoofmdat")
unfolding read_until_ready contains_atom find_atom
read_until_ready_run = refl
