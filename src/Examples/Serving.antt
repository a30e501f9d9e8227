-- ===== src/Examples/Serving.antt =====
-- A whole video request: what the client reads, what the browser is told, and what is given back.
use hik_hcnet_http_bridge.Common.{false, refl, ◌≡◌, true, [], ◌∷◌, none, some, ◌⊎◌, pos}
use hik_hcnet_http_bridge.Text.{codes}
use hik_hcnet_http_bridge.Text.Hex.{hex, lower_hex}
use hik_hcnet_http_bridge.Error.{ok}
use hik_hcnet_http_bridge.Effect.{
  ◌>>=◌, modify, look, check, unless, lift, pure, either, catching, on_throw, on_part,
}
use hik_hcnet_http_bridge.EndReason.{active}
use hik_hcnet_http_bridge.Socket.{sent, write_socket_all}
use hik_hcnet_http_bridge.Ffmpeg.{Read, bytes, ended, read, select_plan, read_until_ready}
use hik_hcnet_http_bridge.Request.{h264_copy_allowed}
use hik_hcnet_http_bridge.Response.{send_text, send_chunk, video_headers}
use hik_hcnet_http_bridge.Device.{
  prepare, new_session, start, start_stream_and_wait_for_data, read_video_stream_configuration,
}
use hik_hcnet_http_bridge.Topology.{resolve, int_sum, read as read_topology}
use hik_hcnet_http_bridge.Dict.{lookup, insert}
use hik_hcnet_http_bridge.CodecCache.{try_get, set}
use hik_hcnet_http_bridge.Mp4.{
  contains_atom, find_atom, detect_video_codec, avc_mse_codec, initial_mp4_has_audio,
}
use hik_hcnet_http_bridge.Video.{set_up}
use hik_hcnet_http_bridge.Serving.{
  OutputLoopTurn, uncleaned, Streaming, ServingConfig, new_serving, serve, stream, respond,
  begin_response, end_response, output_turn, output_loop, on_client, on_pipeline, publish_status,
  resolve_end_reason, handle_video, Bridge,
}
use hik_hcnet_http_bridge.Serving.Framing.{IsDelivered, serve-IsDelivered}
use hik_hcnet_http_bridge.Serving.Restoring.{IsRestored, handle_video-IsRestored}
use hik_hcnet_http_bridge.Http.{HttpRequest, clean_all}
use hik_hcnet_http_bridge.Http.Cleanup.{AsksCleanup}
use hik_hcnet_http_bridge.Serving.Connection.{
  handle_connection, server_of, IsSame, handle_connection-AsksCleanup,
}
use hik_hcnet_http_bridge.Examples.Request.{stod}
use hik_hcnet_http_bridge.Examples.Status.{at}
use hik_hcnet_http_bridge.Examples.Sessions.{registry, registry-IsValid}
use hik_hcnet_http_bridge.Examples.Ffmpeg.{read_turn}
use hik_hcnet_http_bridge.Examples.Pipeline.{video_config, live_request, live_outside}

abbrev serving_config : ServingConfig
serving_config = record {
  video = video_config;
  enable_audio = false;
  end_reason_message = λ reason. [];
}

abbrev output_read : Read → OutputLoopTurn
output_read r = record {
  running = true;
  reads = record { running = true; turn = read_turn r } ∷ [];
  still_running = true;
  meanwhile = λ h. h;
}

-- The socket takes all that it is offered; FFmpeg writes one more fragment and ends.
abbrev streaming : Streaming
streaming = record {
  socket = λ n. record { running = true; send = sent 4096; checked = none; stalled = false } ∷ [];
  output = output_read (bytes (codes "moof")) ∷ output_read ended ∷ [];
  input_end = active;
  cleanup = uncleaned;
  running = true;
  starting = at 50;
  ready = at 60;
  ending = at 70;
}

serve_run :
    (serve serving_config live_request live_outside streaming
      (new_serving serving_config live_request live_outside streaming [] [])).1
    ≡ ok tt
unfolding serve stream respond begin_response end_response output_turn output_loop on_client
    on_pipeline publish_status on_throw on_part send_text send_chunk write_socket_all video_headers
    hex avc_mse_codec initial_mp4_has_audio resolve_end_reason set_up ◌>>=◌ modify look prepare
    check unless new_session lift resolve read_topology pure try_get lookup either
    read_video_stream_configuration set insert start start_stream_and_wait_for_data select_plan
    read_until_ready contains_atom find_atom detect_video_codec h264_copy_allowed catching int_sum
    read lower_hex
serve_run = refl

serve-IsDelivered_example :
    IsDelivered serving_config live_request live_outside streaming
      (serve serving_config live_request live_outside streaming
        (new_serving serving_config live_request live_outside streaming [] [])).0
serve-IsDelivered_example =
    serve-IsDelivered serving_config live_request live_outside streaming [] [] serve_run

abbrev bridge : Bridge
bridge = record { registry = registry; statuses = []; entries = [] }

handle_video-IsRestored_example :
    IsRestored serving_config live_request live_outside streaming bridge
      (handle_video serving_config live_request live_outside streaming none (some 7) bridge)
handle_video-IsRestored_example =
    handle_video-IsRestored serving_config live_request live_outside streaming none (some 7) bridge
      registry-IsValid

abbrev cleanup_request : HttpRequest
cleanup_request = record {
  method = codes "POST";
  path = codes "/cleanSessions";
  query = (codes "apply", codes "true") ∷ [];
  headers = (codes "x-hik-cleanup", codes "true") ∷ [];
}

handle_connection-AsksCleanup_example :
    AsksCleanup cleanup_request
      × ((handle_connection serving_config live_outside streaming
            (at 50)
            []
            stod
            (pos 60)
            none
            (some 7)
            cleanup_request
            bridge).registry
          ≡ (clean_all (at 50) [] (
              server_of serving_config live_outside streaming
                (at 50)
                []
                stod
                (pos 60)
                bridge)).0.registry)
    ⊎ (¬ (AsksCleanup cleanup_request))
      × IsSame serving_config live_outside streaming
          (at 50)
          []
          stod
          (pos 60)
          bridge.registry
          (handle_connection serving_config live_outside streaming
            (at 50)
            []
            stod
            (pos 60)
            none
            (some 7)
            cleanup_request
            bridge).registry
handle_connection-AsksCleanup_example =
    handle_connection-AsksCleanup serving_config live_outside streaming (at 50) [] stod (pos 60)
      none (some 7) cleanup_request bridge registry-IsValid
