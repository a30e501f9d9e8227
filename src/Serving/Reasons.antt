-- ===== src/Serving/Reasons.antt =====
-- Why a session ends, said without the code: by what it met, or by the exception that it threw.
use hik_hcnet_http_bridge.Common.{
  ℕ, ◌≡◌, refl, sym, subst, Bool, true, false, ◌⊎◌, inl, inr, List, ◌∷◌, Option, none, some,
  Bool-cases,
}
use hik_hcnet_http_bridge.Error.{
  Fault, ErrorCode, bridge_error, client_disconnected, other_exception, invalid_parameter,
  config_not_found, invalid_config, manual_restart_required, session_limit, method_not_allowed,
  not_found, bad_request, request_timeout, session_not_found, analog_channel_unsupported,
  analog_channel_out_of_range, analog_channel_disabled, digital_channel_unsupported,
  digital_channel_out_of_range, digital_channel_index_out_of_range, channel_not_found,
  nvr_unreachable, sdk_login_failed, sdk_stream_timeout, sdk_realplay_failed, sdk_playback_failed,
  sdk_callback_failed, sdk_playback_control_failed, media_queue_overflow, client_write_timeout,
  ffmpeg_output_timeout, ffmpeg_no_media_fragment, ffmpeg_no_mp4, ffmpeg_start_failed, pipe_failed,
  internal_error, bind_failed, invalid_command, sdk_not_found, ffmpeg_not_found,
}
use hik_hcnet_http_bridge.EndReason.{StreamEndReason, is_active}
use hik_hcnet_http_bridge.Request.{StreamRequest}
use hik_hcnet_http_bridge.Device.{HcSession}
use hik_hcnet_http_bridge.Video.{Pipeline, Process, Outside}
use hik_hcnet_http_bridge.Serving.{
  Streaming, ServingConfig, OutputLoopTurn, is_data_timeout, of_process, resolve_end_reason,
  reason_of, input_end_of, fault_reason, end_reason,
}

-- A turn of the output loop sees that the bridge stops.
pub data SeesStop : List OutputLoopTurn → Type 0 where
  before_read :
      {turn : OutputLoopTurn} {turns : List OutputLoopTurn}
      → turn.running ≡ false
      → SeesStop (turn ∷ turns)
  behind_read :
      {turn : OutputLoopTurn} {turns : List OutputLoopTurn}
      → turn.still_running ≡ false
      → SeesStop (turn ∷ turns)
  later_turn :
      {turn : OutputLoopTurn} {turns : List OutputLoopTurn}
      → SeesStop turns
      → SeesStop (turn ∷ turns)

-- The bridge stops while the session runs, or behind it.
abbrev pub Stops : Streaming → Type 0
Stops streaming = (streaming.running ≡ false) ⊎ SeesStop streaming.output

-- The session, if there is one, has no reason of its own to end.
abbrev pub HasNoReason : Option HcSession → Type 0
HasNoReason none = Unit {0}
HasNoReason (some h) = is_active h.end_reason ≡ true

-- Why the stream ends: the bridge stops; or the session has ended; or else FFmpeg got no data, or has
-- exited, or was never there.
pub data EndsBy (streaming : Streaming) (p : Pipeline) : StreamEndReason → Type 0 where
  bridge_stops : Stops streaming → EndsBy streaming p StreamEndReason.server_stopped
  session_ended :
      (h : HcSession)
      → p.session ≡ some h
      → is_active h.end_reason ≡ false
      → EndsBy streaming p h.end_reason
  no_data :
      (f : Process)
      → HasNoReason p.session
      → p.ffmpeg ≡ some f
      → is_data_timeout streaming.input_end ≡ true
      → EndsBy streaming p StreamEndReason.sdk_data_timeout
  ffmpeg_ended :
      (f : Process)
      → HasNoReason p.session
      → p.ffmpeg ≡ some f
      → is_data_timeout streaming.input_end ≡ false
      → EndsBy streaming p StreamEndReason.ffmpeg_exit
  no_ffmpeg :
      HasNoReason p.session → p.ffmpeg ≡ none → EndsBy streaming p StreamEndReason.stream_ended

abbrev pub is_output_timeout : ErrorCode → Bool
is_output_timeout ffmpeg_output_timeout = true
is_output_timeout _ = false

abbrev pub is_write_timeout : ErrorCode → Bool
is_write_timeout client_write_timeout = true
is_write_timeout _ = false

-- What an exception stands for, while the bridge runs or as it stops.
pub data StandsFor : Bool → Fault → StreamEndReason → Type 0 where
  replaced : StandsFor true client_disconnected StreamEndReason.client_replaced
  gone_at_stop : StandsFor false client_disconnected StreamEndReason.server_stopped
  no_output :
      {running : Bool} {status : ℕ}
      → StandsFor running
          (bridge_error status ffmpeg_output_timeout)
          StreamEndReason.ffmpeg_output_timeout
  client_blocked :
      {running : Bool} {status : ℕ}
      → StandsFor running
          (bridge_error status client_write_timeout)
          StreamEndReason.client_write_timeout
  not_started :
      {running : Bool} {status : ℕ} {code : ErrorCode}
      → is_output_timeout code ≡ false
      → is_write_timeout code ≡ false
      → StandsFor running (bridge_error status code) StreamEndReason.startup_failed
  failed_while_running : StandsFor true other_exception StreamEndReason.startup_failed
  failed_at_stop : StandsFor false other_exception StreamEndReason.server_stopped

pub stands : (running : Bool) (e : Fault) → StandsFor running e (fault_reason running e)
unfolding fault_reason
stands true client_disconnected = replaced
stands false client_disconnected = gone_at_stop
stands true other_exception = failed_while_running
stands false other_exception = failed_at_stop
stands running (bridge_error status ffmpeg_output_timeout) = no_output
stands running (bridge_error status client_write_timeout) = client_blocked
stands running (bridge_error status invalid_parameter) = not_started refl refl
stands running (bridge_error status config_not_found) = not_started refl refl
stands running (bridge_error status invalid_config) = not_started refl refl
stands running (bridge_error status manual_restart_required) = not_started refl refl
stands running (bridge_error status session_limit) = not_started refl refl
stands running (bridge_error status method_not_allowed) = not_started refl refl
stands running (bridge_error status not_found) = not_started refl refl
stands running (bridge_error status bad_request) = not_started refl refl
stands running (bridge_error status request_timeout) = not_started refl refl
stands running (bridge_error status session_not_found) = not_started refl refl
stands running (bridge_error status analog_channel_unsupported) = not_started refl refl
stands running (bridge_error status analog_channel_out_of_range) = not_started refl refl
stands running (bridge_error status analog_channel_disabled) = not_started refl refl
stands running (bridge_error status digital_channel_unsupported) = not_started refl refl
stands running (bridge_error status digital_channel_out_of_range) = not_started refl refl
stands running (bridge_error status digital_channel_index_out_of_range) = not_started refl refl
stands running (bridge_error status channel_not_found) = not_started refl refl
stands running (bridge_error status nvr_unreachable) = not_started refl refl
stands running (bridge_error status sdk_login_failed) = not_started refl refl
stands running (bridge_error status sdk_stream_timeout) = not_started refl refl
stands running (bridge_error status sdk_realplay_failed) = not_started refl refl
stands running (bridge_error status sdk_playback_failed) = not_started refl refl
stands running (bridge_error status sdk_callback_failed) = not_started refl refl
stands running (bridge_error status sdk_playback_control_failed) = not_started refl refl
stands running (bridge_error status media_queue_overflow) = not_started refl refl
stands running (bridge_error status ffmpeg_no_media_fragment) = not_started refl refl
stands running (bridge_error status ffmpeg_no_mp4) = not_started refl refl
stands running (bridge_error status ffmpeg_start_failed) = not_started refl refl
stands running (bridge_error status pipe_failed) = not_started refl refl
stands running (bridge_error status internal_error) = not_started refl refl
stands running (bridge_error status bind_failed) = not_started refl refl
stands running (bridge_error status invalid_command) = not_started refl refl
stands running (bridge_error status sdk_not_found) = not_started refl refl
stands running (bridge_error status ffmpeg_not_found) = not_started refl refl

of_process-EndsBy :
    (streaming : Streaming) (p : Pipeline)
    → HasNoReason p.session
    → (f : Option Process) → p.ffmpeg ≡ f
    → EndsBy streaming p (of_process (input_end_of f streaming.input_end))
of_process-EndsBy streaming p quiet none e = no_ffmpeg quiet e
of_process-EndsBy streaming p quiet (some f) e =
    elim (Bool-cases (is_data_timeout streaming.input_end)) [
      | inl h ↦ simp h (no_data f quiet e h)
      | inr h ↦ simp h (ffmpeg_ended f quiet e h)
    ]

resolved-EndsBy :
    (streaming : Streaming) (p : Pipeline) (h : Option HcSession)
    → p.session ≡ h
    → EndsBy streaming p
        (resolve_end_reason (reason_of h) (input_end_of p.ffmpeg streaming.input_end))
unfolding resolve_end_reason
resolved-EndsBy streaming p none e =
    of_process-EndsBy streaming p (subst HasNoReason (sym e) tt) p.ffmpeg refl
resolved-EndsBy streaming p (some h) e = elim (Bool-cases (is_active h.end_reason)) [
  | inl f ↦ simp f (of_process-EndsBy streaming p (subst HasNoReason (sym e) f) p.ffmpeg refl)
  | inr f ↦ simp f (session_ended h e f)
]

module _ (config : ServingConfig) (request : StreamRequest) (outside : Outside)
    (streaming : Streaming) where
  pub end_reason-EndsBy :
      (running : Bool) (p : Pipeline)
      → (running ≡ false → Stops streaming)
      → EndsBy streaming p (end_reason config request outside streaming running p)
  end_reason-EndsBy true p stops = resolved-EndsBy streaming p p.session refl
  end_reason-EndsBy false p stops = bridge_stops (stops refl)
