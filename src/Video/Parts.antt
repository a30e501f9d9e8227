-- ===== src/Video/Parts.antt =====
-- The parts of the set-up that leave the sessions and the output mode alone.
use hik_hcnet_http_bridge.Common.{ℕ, ◌≡◌, refl, Bool, Option, none, some}
use hik_hcnet_http_bridge.Text.{Bytes}
use hik_hcnet_http_bridge.Error.{Fault}
use hik_hcnet_http_bridge.Effect.{Effect, modify}
use hik_hcnet_http_bridge.Effect.Keeps.{Keeps, Keeps-modify, keeps_rules}
use hik_hcnet_http_bridge.Ffmpeg.{VideoOutputMode}
use hik_hcnet_http_bridge.Device.{DetectedVideoCodec}
use hik_hcnet_http_bridge.Video.{
  Pipeline, Process, Outside, VideoConfig, remember, keep_probe, spawned, spawn, start_pipeline,
  reset_ffmpeg, retry_in_software, read_media, ask_fallback, first_output,
}
use hik_hcnet_http_bridge.Request.{StreamRequest}

-- The property looks at the sessions and at the output mode only.
pub record IsLocal (P : Pipeline → Type 0) : Type 0 where
  pub at :
      (s t : Pipeline)
      → t.session ≡ s.session
      → t.sessions ≡ s.sessions
      → t.released ≡ s.released
      → t.output_mode ≡ s.output_mode
      → P s
      → P t

module _ {P : Pipeline → Type 0} (local : IsLocal P) where
  pub Keeps-elsewhere :
      (f : Pipeline → Pipeline)
      → ((s : Pipeline) → (f s).session ≡ s.session)
      → ((s : Pipeline) → (f s).sessions ≡ s.sessions)
      → ((s : Pipeline) → (f s).released ≡ s.released)
      → ((s : Pipeline) → (f s).output_mode ≡ s.output_mode)
      → Keeps P (modify f)
  Keeps-elsewhere f a b c d = Keeps-modify f (λ s. local.at s (f s) (a s) (b s) (c s) (d s))

  spawned-Keeps :
      (e : Option Fault) (number : ℕ) (hardware : Bool) → Keeps P (spawned e number hardware)
  unfolding spawned
  spawned-Keeps (some e) number hardware = record { at = λ s h. h }
  spawned-Keeps none number hardware = record { at = λ s h. h }

  module _ (config : VideoConfig) (request : StreamRequest) (outside : Outside) where
    pub spawn-Keeps :
        (mode : VideoOutputMode) (force : Bool) → Keeps P (spawn config request outside mode force)
    unfolding spawn
    spawn-Keeps mode force = record {
      at = λ s h.
          (spawned-Keeps (outside.spawning s.processes) s.processes _).at _
            (local.at s _ refl refl refl refl h);
    }

    pub start_pipeline-Keeps :
        (mode : VideoOutputMode) (force : Bool)
        → Keeps P (start_pipeline config request outside mode force)
    unfolding start_pipeline
    start_pipeline-Keeps mode force = search (keeps_rules, spawn-Keeps, Keeps-elsewhere)

    pub retry_in_software-Keeps : (e : Fault) → Keeps P (retry_in_software config request outside e)
    unfolding retry_in_software
    retry_in_software-Keeps e = search (keeps_rules, start_pipeline-Keeps, Keeps-elsewhere)

    ask_fallback-Keeps :
        (otherwise : Fault → Effect Pipeline (Unit {0}))
        → ((e : Fault) → Keeps P (otherwise e))
        → (e : Fault) → Keeps P (ask_fallback config request outside otherwise e)
    unfolding ask_fallback
    ask_fallback-Keeps otherwise keeps e = search (keeps_rules, keeps)

    pub first_output-Keeps :
        (process : Option Process) → Keeps P (first_output config request outside process)
    unfolding first_output read_media
    first_output-Keeps (some process) = search (keeps_rules, Keeps-elsewhere)
    first_output-Keeps none =
        search (keeps_rules, ask_fallback-Keeps, retry_in_software-Keeps, start_pipeline-Keeps)

    pub remember-Keeps :
        (codec : DetectedVideoCodec) → Keeps P (modify (remember config request outside codec))
    remember-Keeps codec = search Keeps-elsewhere

    pub reset_ffmpeg-Keeps : Keeps P (modify (reset_ffmpeg config request outside))
    reset_ffmpeg-Keeps = search Keeps-elsewhere

    pub keep_probe-Keeps :
        (probe_prefix : Bytes) → Keeps P (keep_probe config request outside probe_prefix)
    unfolding keep_probe
    keep_probe-Keeps probe_prefix = search (keeps_rules, Keeps-elsewhere)
