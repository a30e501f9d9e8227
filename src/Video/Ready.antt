-- ===== src/Video/Ready.antt =====
-- When the set-up returns, there is something to send.
use hik_hcnet_http_bridge.Common.{◌≡◌, Bool, true, false, not, List, [], Option, none, some, arith}
use hik_hcnet_http_bridge.Text.{Bytes}
use hik_hcnet_http_bridge.Error.{Fault, Result, ok, err, Returns}
use hik_hcnet_http_bridge.Effect.{Effect, lift, unless}
use hik_hcnet_http_bridge.Effect.Ensures.{
  Outcome, Ensures, Silent, Any, Ensures-pure, Ensures-modify, Ensures-either, Ensures-bind,
  Ensures-unless, Ensures-anywhere, Ensures-skip, Ensures-lift, Ensures-catching, Ensures-seen,
  Ensures-ok,
}
use hik_hcnet_http_bridge.Request.{StreamRequest}
use hik_hcnet_http_bridge.CodecCache.{Entries}
use hik_hcnet_http_bridge.Ffmpeg.{
  VideoOutputMode, h264_transcode, is_ready, read_until_ready, ReadTurn,
}
use hik_hcnet_http_bridge.Ffmpeg.Ready.{Fails, IsStart, read_until_ready-IsStart}
use hik_hcnet_http_bridge.Video.{
  Process, Pipeline, Outside, VideoConfig, start_pipeline, retry_in_software, read_media,
  ask_fallback, first_output, fall_back, switch_codec, check_codec, opened, set_up, new_pipeline,
}

-- The data that goes out first has the initialization segment and a media fragment.
abbrev pub IsServable : Pipeline → Type 0
IsServable s = is_ready true s.prefix ≡ true

module _ (config : VideoConfig) (request : StreamRequest) (outside : Outside) where
  reading :
      {P : Pipeline → Type 0} (before : Bytes) (turns : List ReadTurn)
      → Ensures P
          (lift (read_until_ready true before turns))
          (λ prefix _. is_ready true prefix ≡ true)
          Silent
  reading before turns = Ensures-lift _ (λ s h.
      go s (read_until_ready true before turns) (read_until_ready-IsStart true before turns))
    where
      go :
          (s : Pipeline) (r : Result Bytes)
          → Returns (IsStart true before turns) (Fails true turns) r
          → Outcome (λ prefix _. is_ready true prefix ≡ true) Silent s r
      go s (ok prefix) start = start.ready
      go s (err e) fails = tt

  start_pipeline-Ensures :
      (mode : VideoOutputMode) (force : Bool)
      → Ensures Any (start_pipeline config request outside mode force) (λ _. IsServable) Silent
  unfolding start_pipeline
  start_pipeline-Ensures mode force = Ensures-skip _ _ λ process. Ensures-skip _ _ λ _.
      Ensures-bind _ _ _ (reading [] (outside.first_media process.number))
        λ prefix. Ensures-modify _ (λ s h. h)

  retry_in_software-Ensures :
      (e : Fault)
      → Ensures Any (retry_in_software config request outside e) (λ _. IsServable) Silent
  unfolding retry_in_software
  retry_in_software-Ensures e = Ensures-seen _ _ λ s.
      Ensures-either _ _ _ (Ensures-skip _ _ (λ _. start_pipeline-Ensures s.output_mode true))
        (Ensures-lift (err e) (λ _ _. tt))

  -- The answer false says that there is output.
  abbrev Answered : Bool → Pipeline → Type 0
  Answered required s = required ≡ false → IsServable s

  ask_fallback-Ensures :
      (otherwise : Fault → Effect Pipeline (Unit {0}))
      → ((e : Fault) → Ensures Any (otherwise e) (λ _. IsServable) Silent)
      → (e : Fault) → Ensures Any (ask_fallback config request outside otherwise e) Answered Silent
  unfolding ask_fallback
  ask_fallback-Ensures otherwise h e = Ensures-seen _ _ λ copies.
      Ensures-either copies _ _ (Ensures-pure true (λ _ _ f. cc f)) (
        Ensures-bind (λ _. IsServable) _ _ (h e)
          (λ _. Ensures-pure false (λ _ servable _. servable)))

  read_media-Ensures :
      (process : Process)
      → Ensures Any (read_media config request outside process) (λ _. IsServable) Silent
  unfolding read_media
  read_media-Ensures process =
      Ensures-bind (λ prefix _. is_ready true prefix ≡ true) _ _
        (Ensures-seen _ _ (λ before. reading before (outside.first_media process.number)))
        λ prefix. Ensures-modify _ (λ s h. h)

  first_output-Ensures :
      (process : Option Process)
      → Ensures Any (first_output config request outside process) Answered Silent
  unfolding first_output
  first_output-Ensures (some process) =
      Ensures-catching _ _
        (Ensures-bind (λ _. IsServable) _ _ (read_media-Ensures process)
          (λ _. Ensures-pure false (λ _ h _. h)))
        (ask_fallback-Ensures _ (λ e. Ensures-lift (err e) (λ _ _. tt)))
  first_output-Ensures none =
      Ensures-catching _ _
        (Ensures-seen _ _ λ mode.
          Ensures-bind (λ _. IsServable) _ _ (start_pipeline-Ensures mode false)
            (λ _. Ensures-pure false (λ _ h _. h)))
        (ask_fallback-Ensures _ retry_in_software-Ensures)

  fall_back-Ensures : Ensures Any (fall_back config request outside) (λ _. IsServable) Silent
  unfolding fall_back
  fall_back-Ensures = Ensures-skip _ _ λ _.
      Ensures-skip _ _
        λ _. Ensures-skip _ _ λ _. Ensures-skip _ _ λ _. start_pipeline-Ensures h264_transcode true

  switch_codec-Ensures : Ensures Any (switch_codec config request outside) (λ _. IsServable) Silent
  unfolding switch_codec
  switch_codec-Ensures = Ensures-skip _ _ λ _. Ensures-skip _ _ λ _. Ensures-skip _ _ λ _.
      Ensures-catching _ _ (start_pipeline-Ensures h264_transcode false) retry_in_software-Ensures

  check_codec-Ensures :
      Ensures IsServable (check_codec config request outside) (λ _. IsServable) Silent
  unfolding check_codec
  check_codec-Ensures =
      Ensures-seen _ _
        λ mistaken. Ensures-unless _ _ (λ _ s h. h) (λ _. Ensures-anywhere switch_codec-Ensures)

  fallen_back :
      (required : Bool)
      → Ensures
          (Answered required)
          (unless (not required) (fall_back config request outside))
          (λ _. IsServable)
          Silent
  fallen_back required =
      Ensures-unless _ _ (λ e s h. h (flipped e)) (λ _. Ensures-anywhere fall_back-Ensures)
    where
      flipped : not required ≡ true → required ≡ false
      flipped e = ground arith

  opened-Ensures : Ensures Any (opened config request outside) (λ _. IsServable) Silent
  unfolding opened
  opened-Ensures = Ensures-skip _ _ λ _. Ensures-skip _ _ λ _. Ensures-skip _ _ λ _.
      Ensures-bind Answered _ _ (Ensures-seen _ _ first_output-Ensures) λ required.
        Ensures-bind (λ _. IsServable) _ _ (fallen_back required) (λ _. check_codec-Ensures)

  pub set_up-Ensures : Ensures Any (set_up config request outside) (λ _. IsServable) Silent
  unfolding set_up
  set_up-Ensures = Ensures-skip _ _ (λ _. opened-Ensures)

  -- Whenever the set-up returns, by whichever of its ways, the data that goes to the client first
  -- passes the bridge's test for it: the names ftyp, moov, moof and mdat each stand somewhere in it.
  pub set_up-IsServable :
      (entries : Entries)
      → (set_up config request outside (new_pipeline entries)).1 ≡ ok tt
      → IsServable (set_up config request outside (new_pipeline entries)).0
  set_up-IsServable entries done = Ensures-ok set_up-Ensures tt done
