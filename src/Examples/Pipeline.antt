-- ===== src/Examples/Pipeline.antt =====
-- Runs of the set-up of a pipeline, and of the writing of a response.
use hik_hcnet_http_bridge.Common.{false, refl, ◌≡◌, true, List, [], ◌∷◌, none, some, pos}
use hik_hcnet_http_bridge.Text.{codes}
use hik_hcnet_http_bridge.Error.{ok}
use hik_hcnet_http_bridge.Socket.{Sent, sent, would_block, interrupted, SendTurn, write_socket_all}
use hik_hcnet_http_bridge.Socket.Complete.{IsInOrder, write_socket_all-IsInOrder}
use hik_hcnet_http_bridge.Ffmpeg.{intel_qsv, ReadTurn, bytes, select_plan, read_until_ready}
use hik_hcnet_http_bridge.Video.{Outside, VideoConfig, set_up, finish, new_pipeline}
use hik_hcnet_http_bridge.Effect.{◌>>=◌, modify, look, check, unless, lift, pure, either, catching}
use hik_hcnet_http_bridge.Device.{
  prepare, new_session, start, start_stream_and_wait_for_data, read_video_stream_configuration,
}
use hik_hcnet_http_bridge.Topology.{resolve, int_sum, read}
use hik_hcnet_http_bridge.Dict.{lookup, insert}
use hik_hcnet_http_bridge.CodecCache.{try_get, set}
use hik_hcnet_http_bridge.Mp4.{contains_atom, find_atom, detect_video_codec}
use hik_hcnet_http_bridge.Video.Copying.{IsFit, set_up-IsFit}
use hik_hcnet_http_bridge.Request.{StreamRequest, real_play, normal_speed, h264_copy_allowed}
use hik_hcnet_http_bridge.Video.Ready.{IsServable, set_up-IsServable}
use hik_hcnet_http_bridge.Video.Balance.{IsFinished, finish-set_up}
use hik_hcnet_http_bridge.Examples.Request.{request}
use hik_hcnet_http_bridge.Examples.Ffmpeg.{read_turn, turns}
use hik_hcnet_http_bridge.Examples.Device.{answers, no_stream, config}

abbrev pub video_config : VideoConfig
video_config = record {
  device = config;
  queue_bytes = 1024;
  codec_cache_ttl = pos 60;
  backend = intel_qsv;
  now = pos 0;
}

-- The recorder lets the bridge log in, but opens no stream.
abbrev outside : Outside
outside = record {
  preparing = λ _. answers;
  starting = λ _. record { first = answers; again = answers; answers = no_stream; turns = [] };
  spawning = λ _. none;
  initial = λ _. turns;
  first_media = λ _. turns;
}

finish-set_up_example :
    IsFinished (
      finish video_config request outside (set_up video_config request outside (new_pipeline [])).0)
finish-set_up_example = finish-set_up video_config request outside []

-- A live stream, of which the recorder says that it is H.264.
abbrev pub live_request : StreamRequest
live_request = record request { option = real_play; speed = normal_speed }

abbrev pub live_turns : List ReadTurn
live_turns = read_turn (bytes (codes "ftypmoovavcC")) ∷ read_turn (bytes (codes "moofmdat")) ∷ []

abbrev pub live_outside : Outside
live_outside = record outside {
  preparing = λ _. record answers {
    compression = some (record { video_enc_type = 0; interval_frame_i = 50 });
  };
  starting = λ _. record {
    first = answers;
    again = answers;
    answers = record no_stream { opened = some 7 };
    turns =
        record { checked = none; late = false; meanwhile = λ s. record s { first_data = true } }
        ∷ [];
  };
  first_media = λ _. live_turns;
}

set_up_run : (set_up video_config live_request live_outside (new_pipeline [])).1 ≡ ok tt
unfolding set_up ◌>>=◌ modify look prepare check unless new_session lift resolve read pure try_get
    lookup either read_video_stream_configuration set insert start start_stream_and_wait_for_data
    select_plan read_until_ready contains_atom find_atom detect_video_codec h264_copy_allowed
    catching int_sum
set_up_run = refl

set_up-IsFit_example :
    IsFit live_request (set_up video_config live_request live_outside (new_pipeline [])).0
set_up-IsFit_example = set_up-IsFit video_config live_request live_outside [] set_up_run

set_up-IsServable_example :
    IsServable (set_up video_config live_request live_outside (new_pipeline [])).0
set_up-IsServable_example = set_up-IsServable video_config live_request live_outside [] set_up_run

abbrev send_turn : Sent → SendTurn
send_turn s = record { running = true; send = s; checked = none; stalled = false }

-- Two bytes go out, then the socket is full for a while.
abbrev send_turns : List SendTurn
send_turns =
    send_turn (sent 2) ∷ send_turn would_block ∷ send_turn interrupted ∷ send_turn (sent 5) ∷ []

write_socket_all-IsInOrder_example :
    IsInOrder (codes "HTTP/1.") (write_socket_all (codes "HTTP/1.") send_turns)
write_socket_all-IsInOrder_example = write_socket_all-IsInOrder (codes "HTTP/1.") send_turns

write_socket_all_run : write_socket_all (codes "HTTP/1.") send_turns ≡ (codes "HTTP/1.", ok true)
unfolding write_socket_all
write_socket_all_run = refl
