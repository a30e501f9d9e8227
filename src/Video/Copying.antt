-- ===== src/Video/Copying.antt =====
-- Where the recorder's video is copied, it is H.264 as far as its initialization segment shows.
use hik_hcnet_http_bridge.Common.{◌≡◌, refl, ◌∙◌, Bool, true, false, not}
use hik_hcnet_http_bridge.Error.{ok}
use hik_hcnet_http_bridge.Effect.{Effect, catching}
use hik_hcnet_http_bridge.Effect.Keeps.{Keeps, keeps_rules}
use hik_hcnet_http_bridge.Effect.Ensures.{
  Ensures, Silent, Any, Ensures-modify, Ensures-look, Ensures-unless, Ensures-bind, Ensures-weaken,
  Ensures-Keeps, Ensures-anywhere, Ensures-skip, Ensures-ok,
}
use hik_hcnet_http_bridge.Request.{StreamRequest, h264_copy_allowed}
use hik_hcnet_http_bridge.CodecCache.{Entries}
use hik_hcnet_http_bridge.Mp4.{detect_video_codec}
use hik_hcnet_http_bridge.Ffmpeg.{h264_transcode}
use hik_hcnet_http_bridge.Video.{
  Pipeline, Outside, VideoConfig, is_copy, is_h265, is_mistaken, start_pipeline, retry_in_software,
  switch_codec, check_codec, opened, set_up, new_pipeline,
}
use hik_hcnet_http_bridge.Video.Parts.{IsLocal, start_pipeline-Keeps, retry_in_software-Keeps}
use hik_hcnet_http_bridge.Video.Sound.{set_up-IsSound}

-- A copy is allowed, and is not shown to be H.265.
abbrev pub IsFit : StreamRequest → Pipeline → Type 0
IsFit request s =
    is_copy s.output_mode ≡ true
    → (h264_copy_allowed request ≡ true) × (is_h265 (detect_video_codec s.prefix) ≡ false)

abbrev Unmistaken : Pipeline → Type 0
Unmistaken s = is_copy s.output_mode ≡ true → is_h265 (detect_video_codec s.prefix) ≡ false

abbrev Transcodes : Pipeline → Type 0
Transcodes s = s.output_mode ≡ h264_transcode

local : IsLocal Transcodes
local = record { at = λ s t a b c d h. d ∙ h }

Transcodes-Unmistaken : (s : Pipeline) → Transcodes s → Unmistaken s
Transcodes-Unmistaken s e f = cc (e, f)

module _ (config : VideoConfig) (request : StreamRequest) (outside : Outside) where
  abbrev transcoding : Effect Pipeline (Unit {0})
  transcoding =
      catching (start_pipeline config request outside h264_transcode false)
        (retry_in_software config request outside)

  transcoding-Keeps : Keeps Transcodes transcoding
  transcoding-Keeps =
      search (keeps_rules, start_pipeline-Keeps local, retry_in_software-Keeps local)

  switch_codec-Ensures : Ensures Any (switch_codec config request outside) (λ _. Unmistaken) Silent
  unfolding switch_codec
  switch_codec-Ensures = Ensures-skip _ _ λ _. Ensures-skip _ _ λ _.
      Ensures-bind (λ _. Transcodes) _ _ (Ensures-modify _ (λ s h. refl))
        λ _.
          Ensures-weaken (λ _. Transcodes-Unmistaken)
            (Ensures-Keeps transcoding transcoding-Keeps (λ e s h. tt))

  -- It is entered where the output mode and the initialization segment disagree.
  check_codec-Ensures : Ensures Any (check_codec config request outside) (λ _. Unmistaken) Silent
  unfolding check_codec
  check_codec-Ensures = Ensures-look _ _ λ s h.
      (Ensures-unless
          {P = λ s'. is_mistaken config request outside s' ≡ is_mistaken config request outside s}
          (not (is_mistaken config request outside s)) _
          (λ e s' same. unmistaken s' (is_mistaken config request outside s) same e)
          (λ _. Ensures-anywhere switch_codec-Ensures)).at
        s refl
    where
      unmistaken :
          (s' : Pipeline) (mistaken : Bool)
          → is_mistaken config request outside s' ≡ mistaken
          → not mistaken ≡ true
          → Unmistaken s'
      unmistaken s' false same e = λ f. simp f at same
      unmistaken s' true same e = cc e

  opened-Ensures : Ensures Any (opened config request outside) (λ _. Unmistaken) Silent
  unfolding opened
  opened-Ensures = Ensures-skip _ _ λ _.
      Ensures-skip _ _
        λ _. Ensures-skip _ _ λ _. Ensures-skip _ _ λ _. Ensures-skip _ _ λ _. check_codec-Ensures

  -- Whenever the set-up returns: if the output mode is copy, the request allows a copy of H.264 and the
  -- data that goes to the client first is not recognized as H.265, whatever the cache, the recorder's
  -- configuration or the probe said of the codec.
  pub set_up-IsFit :
      (entries : Entries)
      → (set_up config request outside (new_pipeline entries)).1 ≡ ok tt
      → IsFit request (set_up config request outside (new_pipeline entries)).0
  unfolding set_up
  set_up-IsFit entries done copies = (
    (set_up-IsSound config request outside entries).allowed copies,
    Ensures-ok {P = Any} {Q = λ _. Unmistaken} (Ensures-skip _ _ (λ _. opened-Ensures)) tt done
        copies,
  )
