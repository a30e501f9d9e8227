-- ===== src/Video/Balance.antt =====
-- No session of a pipeline is lost or held twice.
use hik_hcnet_http_bridge.Common.{
  ℕ, ◌≡◌, refl, ◌∙◌, ◌+◌, ap, true, Option, none, some, length, arith, All,
}
use hik_hcnet_http_bridge.Request.{StreamRequest}
use hik_hcnet_http_bridge.Device.{HcSession}
use hik_hcnet_http_bridge.CodecCache.{Entries}
use hik_hcnet_http_bridge.Video.{
  Pipeline, Outside, VideoConfig, new_pipeline, set_up, finish, released_of,
}
use hik_hcnet_http_bridge.Video.Sound.{IsSound, held, reset_session-IsSound, set_up-IsSound}

-- Nothing is held any more, and each session that was made was released and is stopped.
abbrev pub IsFinished : Pipeline → Type 0
IsFinished s =
    (s.session ≡ none)
    × (s.ffmpeg ≡ none)
    × (s.probe ≡ none)
    × (s.sessions ≡ length s.released)
    × All (λ h. h.stopped ≡ true) s.released

free_count :
    {made released : ℕ} {h : Option HcSession}
    → h ≡ none
    → made ≡ released + held h
    → made ≡ released
free_count {made} {released} e counted = counted ∙ ap (λ x. released + held x) e ∙ omega arith

module _ (config : VideoConfig) (request : StreamRequest) (outside : Outside) where
  -- The cleanup of the session leaves the two processes as it finds them.
  reset_of_processes :
      (h : Option HcSession) (s : Pipeline)
      → ((released_of config request outside h s).ffmpeg ≡ s.ffmpeg)
        × ((released_of config request outside h s).probe ≡ s.probe)
  reset_of_processes none s = (refl, refl)
  reset_of_processes (some h) s = (refl, refl)

  pub finish-IsSound :
      (s : Pipeline) → IsSound request s → IsFinished (finish config request outside s)
  unfolding finish
  finish-IsSound s sound =
      let (f, p) = reset_of_processes s.session (record s { probe = none; ffmpeg = none }) in
      let (after, gone) =
        reset_session-IsSound config request outside (record s { probe = none; ffmpeg = none })
          (record { counted = sound.counted; stopped = sound.stopped; allowed = sound.allowed }) in
      (gone, f, p, free_count gone after.counted, after.stopped)

  -- However the set-up ends, by success or by any exception at any point: behind the cleanup the
  -- pipeline holds no FFmpeg, no probe and no session; as many sessions were released as were made, and
  -- all of these are stopped.
  pub finish-set_up :
      (entries : Entries)
      → IsFinished
          (finish config request outside (set_up config request outside (new_pipeline entries)).0)
  finish-set_up entries = finish-IsSound _ (set_up-IsSound config request outside entries)
