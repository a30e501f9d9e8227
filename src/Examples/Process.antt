-- ===== src/Examples/Process.antt =====
-- The process of FFmpeg, on concrete answers of the system.
use hik_hcnet_http_bridge.Common.{◌≡◌, refl, Bool, true, false, [], ◌∷◌, none, some}
use hik_hcnet_http_bridge.Effect.{◌>>=◌, pure, modify, unless, on_part, on_throw}
use hik_hcnet_http_bridge.Ffmpeg.Process.{
  new_process, StartAnswers, StopAnswers, exited, still_running, make_pipe, raise, open_pipe,
  start_check, add_actions, spawn_child, start_linux, grace, stop_child, stop_process,
  new_ffmpeg_process,
}
use hik_hcnet_http_bridge.Ffmpeg.Process.Descriptors.{IsReleased, stop_process-new_ffmpeg_process}

-- One end of the first pipe is among the standard descriptors.
abbrev start_answers : Bool → StartAnswers
start_answers spawned = record {
  input = record { made = some (0, 7); raised_read = some 8; raised_write = none };
  output = record { made = some (9, 10); raised_read = none; raised_write = none };
  error = record { made = some (11, 12); raised_read = none; raised_write = none };
  actions_made = true;
  actions_added = true ∷ true ∷ true ∷ true ∷ true ∷ true ∷ true ∷ true ∷ true ∷ [];
  spawned = spawned;
}

abbrev stop_answers : StopAnswers
stop_answers = record { first = still_running; turns = exited ∷ []; killed = exited }

closed_behind :
    (stop_process false stop_answers
      (new_ffmpeg_process (start_answers true) stop_answers new_process).0).closed
    ≡ 0 ∷ 8 ∷ 10 ∷ 12 ∷ 7 ∷ 9 ∷ 11 ∷ []
unfolding new_ffmpeg_process start_linux spawn_child open_pipe make_pipe raise start_check
    add_actions stop_process stop_child grace on_throw ◌>>=◌ on_part modify pure unless
closed_behind = refl

stop_process-new_ffmpeg_process_example : IsReleased (
    stop_process false stop_answers
      (new_ffmpeg_process (start_answers true) stop_answers new_process).0)
stop_process-new_ffmpeg_process_example =
    stop_process-new_ffmpeg_process (start_answers true) stop_answers stop_answers false
