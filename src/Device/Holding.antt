-- ===== src/Device/Holding.antt =====
-- What a session holds at the recorder on its way to a stream, and the calls that got it there.
use hik_hcnet_http_bridge.Common.{
  ℕ, ◌≡◌, refl, Bool, true, false, List, [], ◌∷◌, Option, none, some, ◌==◌, ℤ, Bool-cases, inl, inr,
}
use hik_hcnet_http_bridge.Error.{Fault}
use hik_hcnet_http_bridge.Effect.{lift}
use hik_hcnet_http_bridge.Effect.Ensures.{Outcome, Ensures}
use hik_hcnet_http_bridge.Topology.{ResolvedChannelType}
use hik_hcnet_http_bridge.Device.{
  DetectedVideoCodec, HcSession, SdkCall, logs_in, opens_stream, Login, accepted, refused, log_in,
  login_error,
}

-- What the session holds, and the calls that got it there.
pub data Holds : Option ℕ → Option ℕ → List SdkCall → Type 0 where
  nothing : Holds none none []
  login : {user : ℕ} → Holds (some user) none (logs_in user ∷ [])
  stream :
      {user handle : ℕ} → Holds (some user) (some handle) (logs_in user ∷ opens_stream handle ∷ [])

pub record Tidy (s : HcSession) : Type 0 where
  pub running : s.stopped ≡ false
  pub holds : Holds s.user s.handle s.calls

pub record Fresh (s : HcSession) : Type 0 where
  pub running : s.stopped ≡ false
  pub no_user : s.user ≡ none
  pub no_handle : s.handle ≡ none
  pub no_calls : s.calls ≡ []
  pub unprepared : s.prepared ≡ false
  pub unstarted : s.stream_started ≡ false

-- Logged in.
pub record LoggedIn (s : HcSession) : Type 0 where
  pub user : ℕ
  pub running : s.stopped ≡ false
  pub has_user : s.user ≡ some user
  pub no_handle : s.handle ≡ none
  pub one_call : s.calls ≡ logs_in user ∷ []
  pub unstarted : s.stream_started ≡ false

pub record Ready (s : HcSession) : Type 0 where
  pub logged_in : LoggedIn s
  pub prepared : s.prepared ≡ true

pub Holds-of :
    {u h u' h' : Option ℕ} {c c' : List SdkCall}
    → u ≡ u'
    → h ≡ h'
    → c ≡ c'
    → Holds u' h' c'
    → Holds u h c
Holds-of e f g x = rw (e, f, g) x

pub Fresh-Tidy : (s : HcSession) → Fresh s → Tidy s
Fresh-Tidy s f = record {
  running = f.running;
  holds = Holds-of f.no_user f.no_handle f.no_calls nothing;
}

pub LoggedIn-Tidy : (s : HcSession) → LoggedIn s → Tidy s
LoggedIn-Tidy s l = record {
  running = l.running;
  holds = Holds-of l.has_user l.no_handle l.one_call login;
}

pub Ready-Tidy : (s : HcSession) → Ready s → Tidy s
Ready-Tidy s r = LoggedIn-Tidy s r.logged_in

-- Behind the login: logged in, or refused, which login_error throws for.
unfoldable pub LoginOutcome : Login → HcSession → Type 0
LoginOutcome (accepted user) s = LoggedIn s
LoginOutcome (refused error) s = Fresh s

-- However it throws.
abbrev pub Ends : Fault → HcSession → Type 0
Ends e = Tidy

pub log_in_lem :
    (l : Login) (s : HcSession)
    → Fresh s
    → Outcome (λ _. LoginOutcome l) Ends (log_in l s).0 (log_in l s).1
unfolding log_in LoginOutcome
log_in_lem (accepted user) s f = record {
  user = user;
  running = f.running;
  has_user = refl;
  no_handle = f.no_handle;
  one_call = rw f.no_calls;
  unstarted = f.unstarted;
}
log_in_lem (refused error) s f = record {
  running = f.running;
  no_user = refl;
  no_handle = f.no_handle;
  no_calls = f.no_calls;
  unprepared = f.unprepared;
  unstarted = f.unstarted;
}

pub log_in-Ensures : (l : Login) → Ensures Fresh (log_in l) (λ _. LoginOutcome l) Ends
log_in-Ensures l = record { at = log_in_lem l }

pub LoginOutcome-Tidy : (l : Login) (s : HcSession) → LoginOutcome l s → Tidy s
unfolding LoginOutcome
LoginOutcome-Tidy (accepted user) s h = LoggedIn-Tidy s h
LoginOutcome-Tidy (refused error) s h = Fresh-Tidy s h

pub login_error-Ensures :
    (l : Login) → Ensures (LoginOutcome l) (lift (login_error l)) (λ _. LoggedIn) Ends
login_error-Ensures l = record { at = λ s h. unfold lift in refusal l s h }
  where
    refusal :
        (l' : Login) (s : HcSession)
        → LoginOutcome l' s
        → Outcome (λ _. LoggedIn) Ends s (login_error l')
    refusal (accepted user) s h = unfold login_error LoginOutcome in h
    refusal (refused error) s h =
        unfold login_error LoginOutcome in
        elim (Bool-cases (error == 7)) [
          | inl e ↦ rw e (Fresh-Tidy s h)
          | inr e ↦ rw e (Fresh-Tidy s h)
        ]

pub same_login :
    {s : HcSession} {camera : ℤ} {type : ResolvedChannelType} {codec : DetectedVideoCodec}
    {prepared : Bool}
    → LoggedIn s
    → LoggedIn (record s {
      sdk_camera = camera;
      resolved_channel_type = type;
      configured_video_codec = codec;
      prepared = prepared;
    })
same_login l = record {
  user = l.user;
  running = l.running;
  has_user = l.has_user;
  no_handle = l.no_handle;
  one_call = l.one_call;
  unstarted = l.unstarted;
}
