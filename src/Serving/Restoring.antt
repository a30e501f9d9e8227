-- ===== src/Serving/Restoring.antt =====
-- A request gives back what it took.
use hik_hcnet_http_bridge.Common.{
  ℕ, ◌+◌, ◌≡◌, subst, refl, ap, ◌∙◌, sym, Bool, true, false, not, List, [], ◌∷◌, Option, none, some,
  is_empty, length,
}
use hik_hcnet_http_bridge.Text.{Bytes}
use hik_hcnet_http_bridge.Error.{Fault, Result, ok, err}
use hik_hcnet_http_bridge.Effect.{Effect, modify, on_part}
use hik_hcnet_http_bridge.Effect.Keeps.{
  Keeps, Keeps-modify, Keeps-either, Keeps-bind, Keeps-lift, Keeps-pure, Keeps-behind,
  behind-on_throw, keeps_rules,
}
use hik_hcnet_http_bridge.EndReason.{StreamEndReason}
use hik_hcnet_http_bridge.Request.{StreamRequest}
use hik_hcnet_http_bridge.Response.{Client}
use hik_hcnet_http_bridge.Device.{HcSession}
use hik_hcnet_http_bridge.Sessions.{SessionRegistry, State, reserve, counts}
use hik_hcnet_http_bridge.Sessions.Invariant.{IsValid}
use hik_hcnet_http_bridge.Sessions.Slots.{release-reserve}
use hik_hcnet_http_bridge.Status.{Statuses}
use hik_hcnet_http_bridge.CodecCache.{Entries}
use hik_hcnet_http_bridge.Video.{Outside, set_up}
use hik_hcnet_http_bridge.Video.Sound.{IsSound, held, set_up-IsSound}
use hik_hcnet_http_bridge.Video.Balance.{IsFinished, finish-IsSound}
use hik_hcnet_http_bridge.Serving.{
  Streaming, ServingConfig, Serving, OutputLoopTurn, fault_reason, publish, publish_status,
  on_client, on_pipeline, meet, output_turn, output_loop, begin_response, end_response, respond,
  stream, serve, new_serving, callbacks, Bridge, Served, handle_video, on_lease,
}

module _ (config : ServingConfig) (request : StreamRequest) (outside : Outside)
    (streaming : Streaming) where
  abbrev Sound : Serving → Type 0
  Sound s = IsSound request s.pipeline

  on_client-Sound :
      (m : Effect Client (Unit {0})) → Keeps Sound (on_client config request outside streaming m)
  unfolding on_client on_part
  on_client-Sound m = record { at = λ s h. h }

  -- The callbacks work on the session that is held.
  met :
      (f : HcSession → HcSession) (h : Option HcSession) (s : Serving)
      → s.pipeline.session ≡ h
      → Sound s
      → Sound (record s { pipeline = record s.pipeline { session = callbacks f h } })
  met f none s e sound = record {
    counted = sound.counted ∙ ap (λ x. length s.pipeline.released + held x) e;
    stopped = sound.stopped;
    allowed = sound.allowed;
  }
  met f (some h) s e sound = record {
    counted = sound.counted ∙ ap (λ x. length s.pipeline.released + held x) e;
    stopped = sound.stopped;
    allowed = sound.allowed;
  }

  meet-Sound :
      (f : HcSession → HcSession) → Keeps Sound (modify (meet config request outside streaming f))
  meet-Sound f = Keeps-modify _ (λ s h. met f s.pipeline.session s refl h)

  Keeps-elsewhere :
      (f : Serving → Serving)
      → ((s : Serving) → (f s).pipeline ≡ s.pipeline)
      → Keeps Sound (modify f)
  Keeps-elsewhere f same = Keeps-modify f (λ s h. subst (IsSound request) (sym (same s)) h)

  published-pipeline :
      (done : Bool) (reason : StreamEndReason) (s : Serving)
      → (publish config request outside streaming done reason s).pipeline ≡ s.pipeline
  published-pipeline true reason s = refl
  published-pipeline false reason s = refl

  publish_status-pipeline :
      (reason : StreamEndReason) (s : Serving)
      → (publish_status config request outside streaming reason s).pipeline ≡ s.pipeline
  unfolding publish_status
  publish_status-pipeline reason s = published-pipeline s.status_published reason s

  output_turn-Sound :
      (turn : OutputLoopTurn) (rest : Effect Serving StreamEndReason)
      → Keeps Sound rest
      → Keeps Sound (output_turn config request outside streaming turn rest)
  unfolding output_turn
  output_turn-Sound turn rest h = Keeps-either (not turn.running) _ _ (Keeps-pure _) (
      Keeps-bind _ _ (meet-Sound turn.meanwhile) (λ _. Keeps-bind _ _ (Keeps-lift _) λ part.
        Keeps-either (is_empty part) _ _ (search keeps_rules)
          (Keeps-bind _ _ (on_client-Sound _) (λ _. h))))

  output_loop-Sound :
      (turns : List OutputLoopTurn)
      → Keeps Sound (output_loop config request outside streaming turns)
  unfolding output_loop
  output_loop-Sound [] = search keeps_rules
  output_loop-Sound (turn ∷ turns) = output_turn-Sound turn _ (output_loop-Sound turns)

  begin_response-Sound :
      (prefix : Bytes) → Keeps Sound (begin_response config request outside streaming prefix)
  unfolding begin_response
  begin_response-Sound prefix = search (keeps_rules, on_client-Sound, Keeps-elsewhere) depth 9

  end_response-Sound :
      (looped : StreamEndReason)
      → Keeps Sound (end_response config request outside streaming looped)
  unfolding end_response
  end_response-Sound looped =
      search (keeps_rules, on_client-Sound, Keeps-elsewhere, publish_status-pipeline) depth 9

  respond-Sound : Keeps Sound (respond config request outside streaming)
  unfolding respond
  respond-Sound =
      search (keeps_rules, begin_response-Sound, output_loop-Sound, end_response-Sound) depth 9

  set_up-Sound :
      (entries : Entries) (statuses : Statuses)
      → Sound
          (on_pipeline config request outside streaming
            (set_up config.video request outside)
            (new_serving config request outside streaming entries statuses)).0
  unfolding on_pipeline on_part
  set_up-Sound entries statuses = set_up-IsSound config.video request outside entries

  serve-Sound :
      (entries : Entries) (statuses : Statuses)
      → Sound
          (serve config request outside streaming
            (new_serving config request outside streaming entries statuses)).0
  unfolding serve stream
  serve-Sound entries statuses =
      behind-on_throw (stream config request outside streaming) _ _
        (Keeps-behind
          (on_pipeline config request outside streaming (set_up config.video request outside))
          (λ _. respond config request outside streaming) _ (set_up-Sound entries statuses)
          (λ _. respond-Sound))
        (λ e s h.
          subst (IsSound request)
            (sym (publish_status-pipeline (fault_reason streaming.running e) s)) h)

  -- The pipeline that is left holds nothing.
  abbrev pub Finished : Option Serving → Type 0
  Finished none = Unit {0}
  Finished (some s) = IsFinished s.pipeline

  pub record IsRestored (before : Bridge) (served : Served) : Type 0 where
    pub states : served.bridge.registry.states ≡ before.registry.states
    pub counted : counts served.bridge.registry ≡ counts before.registry
    pub finished : Finished served.serving

  on_lease-IsRestored :
      (fd : Option ℕ) (bridge : Bridge)
      → IsValid bridge.registry
      → (r : Result (SessionRegistry × Option State))
      → reserve bridge.registry request.sid fd request.generation ≡ r
      → IsRestored bridge (on_lease config request outside streaming bridge r)
  on_lease-IsRestored fd bridge valid (err e) eq = record {
    states = refl;
    counted = refl;
    finished = tt;
  }
  on_lease-IsRestored fd bridge valid (ok (registry, none)) eq = record {
    states = refl;
    counted = refl;
    finished = tt;
  }
  on_lease-IsRestored fd bridge valid (ok (registry, some lease)) eq =
      let (_, _, _, _, states, counted) =
        release-reserve bridge.registry request.sid fd request.generation valid eq in
      record {
        states = states;
        counted = counted;
        finished = finish-IsSound config.video request outside _ (serve-Sound bridge.entries _);
      }

  -- However a video request ends, refused, by success or by any exception, it leaves the sessions
  -- and the free slots as they were; and its pipeline, if it came to one, holds no process and no
  -- session, and stopped every session that it made.
  pub handle_video-IsRestored :
      (checked : Option Fault) (fd : Option ℕ) (bridge : Bridge)
      → IsValid bridge.registry
      → IsRestored bridge (handle_video config request outside streaming checked fd bridge)
  unfolding handle_video
  handle_video-IsRestored none fd bridge valid = on_lease-IsRestored fd bridge valid _ refl
  handle_video-IsRestored (some e) fd bridge valid = record {
    states = refl;
    counted = refl;
    finished = tt;
  }
