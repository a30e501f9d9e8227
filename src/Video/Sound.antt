-- ===== src/Video/Sound.antt =====
-- What holds of the pipeline all along: its sessions are accounted for, and a copy is allowed.
use hik_hcnet_http_bridge.Common.{
  ℕ, ◌+◌, ◌≡◌, refl, ap, ◌∙◌, sym, subst, Bool, true, ◌&&◌, [], ◌∷◌, Option, none, some, arith,
  if◌then◌else◌, length, length-append, All, All-append, has_value,
}
use hik_hcnet_http_bridge.Effect.{◌>>=◌, modify, look, unless}
use hik_hcnet_http_bridge.Effect.Keeps.{Keeps, Keeps-modify, Keeps-behind, keeps_rules}
use hik_hcnet_http_bridge.Request.{StreamRequest, h264_copy_allowed}
use hik_hcnet_http_bridge.Device.{HcSession, DetectedVideoCodec, stop, SessionEffect}
use hik_hcnet_http_bridge.CodecCache.{Entries}
use hik_hcnet_http_bridge.Ffmpeg.{copy, h264_transcode}
use hik_hcnet_http_bridge.Video.{
  Pipeline, Outside, VideoConfig, on_held, on_session, is_h264, is_copy, make_session,
  reset_session, released_of, prepare_session, start_session, open_session, close_session,
  reopen_session, probe_codec, chosen, choose_codec, decide, restart_session, transcode, fall_back,
  switch_codec, check_codec, opened, set_up, new_pipeline,
}
use hik_hcnet_http_bridge.Video.Parts.{
  IsLocal, Keeps-elsewhere, spawn-Keeps, start_pipeline-Keeps, retry_in_software-Keeps,
  first_output-Keeps, keep_probe-Keeps,
}

abbrev pub held : Option HcSession → ℕ
held none = 0
held (some h) = 1

-- Every session that was made is either held or was released, a released one is stopped, and the
-- recorder's H.264 is copied only where that is allowed.
pub record IsSound (request : StreamRequest) (s : Pipeline) : Type 0 where
  pub counted : s.sessions ≡ length s.released + held s.session
  pub stopped : All (λ h. h.stopped ≡ true) s.released
  pub allowed : is_copy s.output_mode ≡ true → h264_copy_allowed request ≡ true

stop_stopped : (request : StreamRequest) (h : HcSession) → (stop request h).stopped ≡ true
unfolding stop
stop_stopped request h = ground arith

module _ (config : VideoConfig) (request : StreamRequest) (outside : Outside) where
  abbrev Free : Pipeline → Type 0
  Free s = IsSound request s × (s.session ≡ none)

  local : IsLocal (IsSound request)
  local = record {
    at = λ s t a b c d h. record {
      counted = cc (h.counted, a, b, c);
      stopped = subst (λ released. All (λ h'. h'.stopped ≡ true) released) (sym c) h.stopped;
      allowed = λ e. h.allowed (ap is_copy (sym d) ∙ e);
    };
  }

  reset_of :
      (h : Option HcSession) (s : Pipeline)
      → s.session ≡ h
      → IsSound request s
      → Free (released_of config request outside h s)
  reset_of none s e b = (b, e)
  reset_of (some h) s e b = (
    record {
      counted =
          b.counted
          ∙ ap (λ x. length s.released + held x) e
          ∙ omega (arith, length-append s.released (stop request h ∷ []));
      stopped =
          All-append (λ h'. h'.stopped ≡ true) s.released (stop request h ∷ []) b.stopped
            (stop_stopped request h, tt);
      allowed = b.allowed;
    },
    refl,
  )

  pub reset_session-IsSound :
      (s : Pipeline) → IsSound request s → Free (reset_session config request outside s)
  reset_session-IsSound s b = reset_of s.session s refl b

  on_held-IsSound :
      (h : Option HcSession) (m : SessionEffect (Unit {0})) (s : Pipeline)
      → s.session ≡ h
      → IsSound request s
      → IsSound request (on_held h m s).0
  unfolding on_held
  on_held-IsSound none m s e b = b
  on_held-IsSound (some h) m s e b = record {
    counted = b.counted ∙ ap (λ x. length s.released + held x) e;
    stopped = b.stopped;
    allowed = b.allowed;
  }

  on_session-Keeps : (m : SessionEffect (Unit {0})) → Keeps (IsSound request) (on_session m)
  unfolding on_session
  on_session-Keeps m = record { at = λ s b. on_held-IsSound s.session m s refl b }

  prepare_session-Keeps : Keeps (IsSound request) (prepare_session config request outside)
  unfolding prepare_session
  prepare_session-Keeps = search (keeps_rules, on_session-Keeps)

  start_session-Keeps : Keeps (IsSound request) (start_session config request outside)
  unfolding start_session
  start_session-Keeps = search (keeps_rules, on_session-Keeps)

  open_session-IsSound :
      (s : Pipeline) → Free s → IsSound request (open_session config request outside s).0
  unfolding open_session ◌>>=◌ modify
  open_session-IsSound s (b, e) =
      prepare_session-Keeps.at (make_session config request outside s) (record {
        counted =
            ap (λ n. n + 1) (b.counted ∙ ap (λ x. length s.released + held x) e) ∙ omega arith;
        stopped = b.stopped;
        allowed = b.allowed;
      })

  reopen_session-Keeps : Keeps (IsSound request) (reopen_session config request outside)
  unfolding reopen_session close_session ◌>>=◌ modify
  reopen_session-Keeps = record { at = λ s b. open_session-IsSound _ (reset_session-IsSound s b) }

  unless_open-Keeps :
      Keeps (IsSound request) (
        look (λ s. has_value s.session) λ there. unless there (open_session config request outside))
  unfolding look unless
  unless_open-Keeps = record { at = λ s b. go s s.session refl b }
    where
      go :
          (s : Pipeline) (h : Option HcSession)
          → s.session ≡ h
          → IsSound request s
          → IsSound request (unless (has_value h) (open_session config request outside) s).0
      go s none e b = open_session-IsSound s (b, e)
      go s (some h) e b = b

  probe_codec-Keeps : Keeps (IsSound request) (probe_codec config request outside)
  unfolding probe_codec
  probe_codec-Keeps =
      search
        (
          keeps_rules,
          start_session-Keeps,
          spawn-Keeps local,
          keep_probe-Keeps local,
          Keeps-elsewhere local,
        )
        depth 8

  chosen-Keeps :
      (hit : Option DetectedVideoCodec)
      → Keeps (IsSound request) (chosen config request outside hit)
  unfolding chosen
  chosen-Keeps none = search (keeps_rules, probe_codec-Keeps, Keeps-elsewhere local)
  chosen-Keeps (some codec) = search (Keeps-elsewhere local)

  pub choose_codec-Keeps : Keeps (IsSound request) (choose_codec config request outside)
  unfolding choose_codec
  choose_codec-Keeps = search (keeps_rules, chosen-Keeps, Keeps-elsewhere local)

  decided :
      (avc : Bool)
      → is_copy (if avc && h264_copy_allowed request then copy else h264_transcode) ≡ true
      → h264_copy_allowed request ≡ true
  decided avc = ground arith

  decide-Keeps : Keeps (IsSound request) (modify (decide config request outside))
  decide-Keeps = Keeps-modify _ λ s b. record {
    counted = b.counted;
    stopped = b.stopped;
    allowed = decided (is_h264 s.detected_codec);
  }

  transcode-Keeps : Keeps (IsSound request) (modify (transcode config request outside))
  transcode-Keeps =
      Keeps-modify _ λ s b. record { counted = b.counted; stopped = b.stopped; allowed = λ e. cc e }

  restart_session-Keeps : Keeps (IsSound request) (restart_session config request outside)
  unfolding restart_session
  restart_session-Keeps =
      search (keeps_rules, reopen_session-Keeps, unless_open-Keeps, start_session-Keeps)

  fall_back-Keeps : Keeps (IsSound request) (fall_back config request outside)
  unfolding fall_back
  fall_back-Keeps = search (
    keeps_rules,
    reopen_session-Keeps,
    start_session-Keeps,
    start_pipeline-Keeps local,
    transcode-Keeps,
    Keeps-elsewhere local,
  )

  switch_codec-Keeps : Keeps (IsSound request) (switch_codec config request outside)
  unfolding switch_codec
  switch_codec-Keeps = search (
    keeps_rules,
    start_pipeline-Keeps local,
    retry_in_software-Keeps local,
    Keeps-elsewhere local,
    transcode-Keeps,
  )

  check_codec-Keeps : Keeps (IsSound request) (check_codec config request outside)
  unfolding check_codec
  check_codec-Keeps = search (keeps_rules, switch_codec-Keeps)

  -- Behind the first session.
  pub opened-Keeps : Keeps (IsSound request) (opened config request outside)
  unfolding opened
  opened-Keeps =
      search
        (
          keeps_rules,
          choose_codec-Keeps,
          decide-Keeps,
          restart_session-Keeps,
          first_output-Keeps local,
          fall_back-Keeps,
          check_codec-Keeps,
        )
        depth 9

  new_pipeline-IsSound : (entries : Entries) → Free (new_pipeline entries)
  new_pipeline-IsSound entries =
      (record { counted = refl; stopped = tt; allowed = λ e. cc e }, refl)

  -- Whatever happens while the pipeline is set up, also where it throws.
  pub set_up-IsSound :
      (entries : Entries) → IsSound request (set_up config request outside (new_pipeline entries)).0
  unfolding set_up
  set_up-IsSound entries =
      Keeps-behind (open_session config request outside) _ (new_pipeline entries)
        (open_session-IsSound (new_pipeline entries) (new_pipeline-IsSound entries))
        (λ _. opened-Keeps)
