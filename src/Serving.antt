-- ===== src/Serving.antt =====
-- One video request from its start to its end: handle_video and resolve_end_reason of
-- cpp-sdk-http-bridge-linux/src/main.cpp, over Video for the set-up of the pipeline, Response for what
-- goes out to the client, Sessions for the lease and Status for what the browser is told. The other
-- requests do nothing in the meantime, except that a cleanup may mark the session and cancel the lease.
pub mod Reasons
pub mod Reporting
pub mod Framing
pub mod Pieces
pub mod Restoring
pub mod Connection
use hik_hcnet_http_bridge.Common.{
  ℕ, Bool, true, false, not, List, [], ◌∷◌, ◌++◌, Option, none, some, if◌then◌else◌, is_empty, map,
}
use hik_hcnet_http_bridge.Text.{Bytes}
use hik_hcnet_http_bridge.Error.{
  Fault, Result, ok, err, throw, bridge_error, client_disconnected, other_exception, ErrorCode,
  session_limit, ffmpeg_output_timeout, client_write_timeout,
}
use hik_hcnet_http_bridge.Effect.{
  Effect, pure, ◌>>=◌, ◌>>◌, modify, lift, look, either, on_throw, on_part,
}
use hik_hcnet_http_bridge.EndReason.{StreamEndReason, active, is_active}
use hik_hcnet_http_bridge.Request.{StreamRequest}
use hik_hcnet_http_bridge.Socket.{SendTurn}
use hik_hcnet_http_bridge.Ffmpeg.{OutputTurn, read}
use hik_hcnet_http_bridge.Response.{Client, new_client, send_text, send_chunk, video_headers}
use hik_hcnet_http_bridge.Response.Chunks.{end_of_chunks}
use hik_hcnet_http_bridge.Sessions.{SessionRegistry, State, reserve, release}
use hik_hcnet_http_bridge.Status.{
  Now, Statuses, QueueReport, set_active, set_ended, set_output_ready,
}
use hik_hcnet_http_bridge.Device.{HcSession}
use hik_hcnet_http_bridge.CodecCache.{Entries}
use hik_hcnet_http_bridge.Video.{
  Pipeline, Process, Outside, VideoConfig, new_pipeline, set_up, finish,
}

-- A turn of the output loop: g_running before it and behind the read, what the read meets, and what
-- the threads of the SDK have done to the session by then.
pub record OutputLoopTurn : Type 0 where
  pub running : Bool
  pub reads : List OutputTurn
  pub still_running : Bool
  pub meanwhile : HcSession → HcSession

-- A cleanup of the session: none, or one that comes before the first output is reported, or one behind
-- that; it marks the session before it cancels the lease.
pub data Cleanup : Type 0 where
  uncleaned : Cleanup
  cleaned_early cleaned_late : Now → Cleanup

abbrev pub is_cleaned : Cleanup → Bool
is_cleaned uncleaned = false
is_cleaned _ = true

-- What the request meets behind the set-up.
pub record Streaming : Type 0 where
  pub socket : ℕ → List SendTurn
  pub output : List OutputLoopTurn
  -- input_end_reason() of the FFmpeg process
  pub input_end : StreamEndReason
  pub cleanup : Cleanup
  -- g_running, as it is read where the end is published
  pub running : Bool
  -- the clocks of set_active, set_output_ready and set_ended
  pub starting : Now
  pub ready : Now
  pub ending : Now

-- The settings and texts that it reads.
pub record ServingConfig : Type 0 where
  pub video : VideoConfig
  pub enable_audio : Bool
  pub end_reason_message : StreamEndReason → Bytes

pub record Serving : Type 0 where
  pub pipeline : Pipeline
  pub client : Client
  pub statuses : Statuses
  pub status_published : Bool
  pub response_started : Bool

abbrev pub is_data_timeout : StreamEndReason → Bool
is_data_timeout StreamEndReason.sdk_data_timeout = true
is_data_timeout _ = false

abbrev of_process : Option StreamEndReason → StreamEndReason
of_process none = StreamEndReason.stream_ended
of_process (some input_end) =
    if is_data_timeout input_end
    then StreamEndReason.sdk_data_timeout
    else StreamEndReason.ffmpeg_exit

-- The session's own reason comes first, then the input of FFmpeg, then FFmpeg.
unfoldable pub resolve_end_reason :
    Option StreamEndReason → Option StreamEndReason → StreamEndReason
resolve_end_reason none input_end = of_process input_end
resolve_end_reason (some reason) input_end =
    if is_active reason then of_process input_end else reason

abbrev pub reason_of : Option HcSession → Option StreamEndReason
reason_of none = none
reason_of (some h) = some h.end_reason

abbrev pub input_end_of : Option Process → StreamEndReason → Option StreamEndReason
input_end_of none input_end = none
input_end_of (some process) input_end = some input_end

-- The numbers of the queue, zero without a session.
abbrev pub report_of : Option HcSession → QueueReport
report_of none = record { current = 0; peak = 0; backpressure = 0 }
report_of (some h) = record {
  current = h.queue.bytes;
  peak = h.queue.peak_bytes;
  backpressure = h.queue.backpressure_events;
}

-- The reason that the handlers give to an exception.
unfoldable pub fault_reason : Bool → Fault → StreamEndReason
fault_reason running client_disconnected =
    if running then StreamEndReason.client_replaced else StreamEndReason.server_stopped
fault_reason running (bridge_error status ffmpeg_output_timeout) =
    StreamEndReason.ffmpeg_output_timeout
fault_reason running (bridge_error status client_write_timeout) =
    StreamEndReason.client_write_timeout
fault_reason running (bridge_error status _) = StreamEndReason.startup_failed
fault_reason running other_exception =
    if running then StreamEndReason.startup_failed else StreamEndReason.server_stopped

abbrev callbacks : (HcSession → HcSession) → Option HcSession → Option HcSession
callbacks f none = none
callbacks f (some h) = some (f h)

module _ (config : ServingConfig) (request : StreamRequest) (outside : Outside)
    (streaming : Streaming) where
  abbrev pub end_reason : Bool → Pipeline → StreamEndReason
  end_reason running p =
      if running
      then resolve_end_reason (reason_of p.session) (input_end_of p.ffmpeg streaming.input_end)
      else StreamEndReason.server_stopped

  abbrev pub published_reason : StreamEndReason → StreamEndReason
  published_reason reason =
      if is_cleaned streaming.cleanup then StreamEndReason.manual_cleanup else reason

  -- The callback that SessionRegistry::clean gets from /cleanSessions.
  abbrev pub mark_cleaned : Now → Statuses → Statuses
  mark_cleaned now statuses =
      set_ended now request.sid StreamEndReason.manual_cleanup
        (config.end_reason_message StreamEndReason.manual_cleanup) (report_of none) statuses

  abbrev pub marked_early : Cleanup → Statuses → Statuses
  marked_early (cleaned_early now) statuses = mark_cleaned now statuses
  marked_early _ statuses = statuses

  abbrev pub marked_late : Cleanup → Statuses → Statuses
  marked_late (cleaned_late now) statuses = mark_cleaned now statuses
  marked_late _ statuses = statuses

  abbrev pub told : StreamEndReason → Option HcSession → Statuses → Statuses
  told reason session statuses =
      set_ended streaming.ending request.sid (published_reason reason)
        (config.end_reason_message (published_reason reason)) (report_of session)
        (marked_late streaming.cleanup statuses)

  abbrev pub publish : Bool → StreamEndReason → Serving → Serving
  publish true reason s = s
  publish false reason s = record s {
    statuses = told reason s.pipeline.session s.statuses;
    status_published = true;
  }

  unfoldable pub publish_status : StreamEndReason → Serving → Serving
  publish_status reason s = publish s.status_published reason s

  unfoldable pub on_client : Effect Client (Unit {0}) → Effect Serving (Unit {0})
  on_client m = on_part (λ s. s.client) (λ client s. record s { client = client }) m

  unfoldable pub on_pipeline : Effect Pipeline (Unit {0}) → Effect Serving (Unit {0})
  on_pipeline m = on_part (λ s. s.pipeline) (λ pipeline s. record s { pipeline = pipeline }) m

  -- The callbacks of the SDK between two reads.
  abbrev pub meet : (HcSession → HcSession) → Serving → Serving
  meet f s = record s { pipeline = record s.pipeline { session = callbacks f s.pipeline.session } }

  -- A turn of the loop, and the rest of it.
  unfoldable pub output_turn :
      OutputLoopTurn → Effect Serving StreamEndReason → Effect Serving StreamEndReason
  output_turn turn rest = either (not turn.running) (pure active) (do
    modify (meet turn.meanwhile)
    part ← lift (read turn.reads)
    either (is_empty part) (look (λ s. end_reason turn.still_running s.pipeline) pure)
        (on_client (send_chunk streaming.socket part) >> rest))

  -- The loop that hands the output on; it ends with a reason, or with `active` where the bridge has
  -- stopped before a read. Behind the turns the bridge has stopped.
  unfoldable pub output_loop : List OutputLoopTurn → Effect Serving StreamEndReason
  output_loop [] = pure active
  output_loop (turn ∷ turns) = output_turn turn (output_loop turns)

  -- What goes out before the loop.
  unfoldable pub begin_response : Bytes → Effect Serving (Unit {0})
  begin_response prefix = do
    modify (λ s. record s { statuses = set_output_ready streaming.ready request.sid s.statuses })
    on_client (send_text streaming.socket (video_headers config.enable_audio request prefix))
    modify (λ s. record s { response_started = true })
    on_client (send_chunk streaming.socket prefix)

  -- `if (reason == Active) reason = ...`
  abbrev pub final_reason : StreamEndReason → Serving → StreamEndReason
  final_reason looped s =
      if is_active looped then end_reason streaming.running s.pipeline else looped

  unfoldable pub end_response : StreamEndReason → Effect Serving (Unit {0})
  end_response looped = do
    modify (λ s. publish_status (final_reason looped s) s)
    on_client (send_text streaming.socket end_of_chunks)

  -- What follows the set-up.
  unfoldable pub respond : Effect Serving (Unit {0})
  respond = do
    prefix ← look (λ s. s.pipeline.prefix) pure
    begin_response prefix
    looped ← output_loop streaming.output
    end_response looped

  -- The try block, and its handlers, each of which throws on.
  unfoldable pub stream : Effect Serving (Unit {0})
  stream = on_pipeline (set_up config.video request outside) >> respond

  unfoldable pub serve : Effect Serving (Unit {0})
  serve = on_throw stream (λ e. publish_status (fault_reason streaming.running e))

  abbrev pub new_serving : Entries → Statuses → Serving
  new_serving entries statuses = record {
    pipeline = new_pipeline entries;
    client = new_client;
    statuses = statuses;
    status_published = false;
    response_started = false;
  }

-- What the requests share.
pub record Bridge : Type 0 where
  pub registry : SessionRegistry
  pub statuses : Statuses
  pub entries : Entries

-- What is left of a request: the shared state, its own, if it came to a lease, and its outcome.
pub record Served : Type 0 where
  pub bridge : Bridge
  pub serving : Option Serving
  pub outcome : Result (Unit {0})

abbrev pub refused : Bridge → Fault → Served
refused bridge e = record { bridge = bridge; serving = none; outcome = err e }

module _ (config : ServingConfig) (request : StreamRequest) (outside : Outside)
    (streaming : Streaming) where
  -- The end of the scope: the pipeline is cleaned up, then the lease is returned.
  abbrev pub leave : SessionRegistry → State → Serving × Result (Unit {0}) → Served
  leave registry lease (s, outcome) = record {
    bridge = record {
      registry = release registry lease.address;
      statuses = s.statuses;
      entries = s.pipeline.entries;
    };
    serving = some (record s { pipeline = finish config.video request outside s.pipeline });
    outcome = outcome;
  }

  abbrev pub on_lease : Bridge → Result (SessionRegistry × Option State) → Served
  on_lease bridge (err e) = refused bridge e
  on_lease bridge (ok (registry, none)) = refused bridge (bridge_error 503 session_limit)
  on_lease bridge (ok (registry, some lease)) = leave registry lease (
      serve config request outside streaming (
        new_serving config request outside streaming bridge.entries (
          marked_early config request outside streaming streaming.cleanup
            (set_active streaming.starting request.sid bridge.statuses))))

  abbrev on_checked : Option Fault → Served → Bridge → Served
  on_checked none served bridge = served
  on_checked (some e) served bridge = refused bridge e

  -- `checked` is what the first check_video_client throws.
  unfoldable pub handle_video : Option Fault → Option ℕ → Bridge → Served
  handle_video checked fd bridge =
      on_checked checked
        (on_lease bridge (reserve bridge.registry request.sid fd request.generation)) bridge
