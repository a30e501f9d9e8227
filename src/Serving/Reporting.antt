-- ===== src/Serving/Reporting.antt =====
-- The browser is told once how its session ended, and why.
use hik_hcnet_http_bridge.Common.{◌≡◌, Bool, true, false, ◌⊎◌}
use hik_hcnet_http_bridge.Error.{Fault}
use hik_hcnet_http_bridge.Effect.{Effect}
use hik_hcnet_http_bridge.Effect.Keeps.{Keeps}
use hik_hcnet_http_bridge.Effect.Ensures.{Ensures}
use hik_hcnet_http_bridge.EndReason.{StreamEndReason, active}
use hik_hcnet_http_bridge.Request.{StreamRequest}
use hik_hcnet_http_bridge.Status.{Statuses, set_output_ready, set_ended}
use hik_hcnet_http_bridge.Video.{Outside}
use hik_hcnet_http_bridge.Serving.{
  Cleanup, uncleaned, cleaned_late, report_of, Streaming, ServingConfig, Serving, fault_reason,
  end_reason, told,
}
use hik_hcnet_http_bridge.Serving.Reasons.{Stops, EndsBy, StandsFor}

module _ (config : ServingConfig) (request : StreamRequest) (outside : Outside)
    (streaming : Streaming) where
  -- The statuses before the end: as they were, or with the time of the first output.
  abbrev pub Before : Statuses → Statuses → Type 0
  Before statuses before =
      (before ≡ statuses) ⊎ (before ≡ set_output_ready streaming.ready request.sid statuses)

  -- The end of the session was published for a reason: once, behind all else that is told of it.
  pub record IsTold (statuses : Statuses) (reason : StreamEndReason) (s : Serving) : Type 0 where
    pub before : Statuses
    pub opened : Before statuses before
    pub once : s.statuses ≡ told config request outside streaming reason s.pipeline.session before
    pub published : s.status_published ≡ true

  -- The reason that the stream itself gave.
  abbrev ByStream : Statuses → Serving → Type 0
  ByStream statuses s =
      (running : Bool) × (running ≡ false → Stops streaming)
      × IsTold statuses (end_reason config request outside streaming running s.pipeline) s

  -- Behind an exception it may be the reason that its handler gave.
  abbrev ByFault : Statuses → Fault → Serving → Type 0
  ByFault statuses e s = ByStream statuses s ⊎ IsTold statuses (fault_reason streaming.running e) s

  module _ (statuses : Statuses) where
    record Untold (s : Serving) : Type 0 where
      unpublished : s.status_published ≡ false
      opened : Before statuses s.statuses

    record Unopened (s : Serving) : Type 0 where
      unpublished : s.status_published ≡ false
      same : s.statuses ≡ statuses

    abbrev Thrown : Fault → Serving → Type 0
    Thrown e s = Untold s ⊎ ByStream statuses s

    -- The loop ends with `active`, or with the reason that the pipeline gives.
    abbrev Looped : StreamEndReason → Serving → Type 0
    Looped looped s =
        Untold s
        × ((looped ≡ active)
            ⊎ ((running : Bool) × (running ≡ false → Stops streaming)
                × (looped ≡ end_reason config request outside streaming running s.pipeline)))

  -- The entry as a cleanup has left it that comes behind the first output, or as it was.
  abbrev pub Marked : Cleanup → Statuses → Statuses → Type 0
  Marked (cleaned_late now) before after =
      after
      ≡ set_ended now request.sid StreamEndReason.manual_cleanup
          (config.end_reason_message StreamEndReason.manual_cleanup)
          (record { current = 0; peak = 0; backpressure = 0 }) before
  Marked _ before after = after ≡ before

  -- A cleanup is told in place of any other reason.
  abbrev pub Overrides : Cleanup → StreamEndReason → StreamEndReason → Type 0
  Overrides uncleaned reason told_reason = told_reason ≡ reason
  Overrides _ reason told_reason = told_reason ≡ StreamEndReason.manual_cleanup

  -- The end of the session was told once, with a reason of the given kind or with that of a cleanup,
  -- and behind the first output and the mark of a cleanup.
  pub record IsPublished (statuses : Statuses) (Why : StreamEndReason → Type 0) (s : Serving)
      : Type 0 where
    pub reason : StreamEndReason
    pub why : Why reason
    pub told_reason : StreamEndReason
    pub overridden : Overrides streaming.cleanup reason told_reason
    pub before : Statuses
    pub opened : Before statuses before
    pub marked : Statuses
    pub mark : Marked streaming.cleanup before marked
    pub once :
        s.statuses
        ≡ set_ended streaming.ending request.sid told_reason
            (config.end_reason_message told_reason)
            (report_of s.pipeline.session)
            marked
    pub published : s.status_published ≡ true

  -- As the stream ends.
  abbrev pub ToldByStream : Statuses → Serving → Type 0
  ToldByStream statuses s = IsPublished statuses (EndsBy streaming s.pipeline) s

  -- As the stream ends, or as the exception says.
  abbrev pub ToldByFault : Statuses → Fault → Serving → Type 0
  ToldByFault statuses e s =
      ToldByStream statuses s ⊎ IsPublished statuses (StandsFor streaming.running e) s
