-- ===== src/Device/Release.antt =====
-- Whatever a session opens at the recorder it closes again, the stream before the login.
use hik_hcnet_http_bridge.Common.{ℕ, refl, List, [], ◌∷◌, ◌++◌, Option, some, All}
use hik_hcnet_http_bridge.Error.{Result, ok, err}
use hik_hcnet_http_bridge.Effect.Ensures.{Outcome}
use hik_hcnet_http_bridge.Request.{StreamRequest, StreamOption}
use hik_hcnet_http_bridge.Device.{
  HcSession, new_session, SdkCall, logs_in, logs_out, opens_stream, DeviceConfig, Answers,
  StartAnswers, WaitTurn, start, stop, handle_closing, user_closing,
}
use hik_hcnet_http_bridge.Device.Holding.{Holds, nothing, login, stream, Tidy, Ends}
use hik_hcnet_http_bridge.Device.Starting.{LeavesHandles, start-Tidy}

Outcome-both : (r : HcSession × Result (Unit {0})) → Outcome (λ _. Tidy) Ends r.0 r.1 → Tidy r.0
Outcome-both r h = go r.0 r.1 h
  where
    go : (s : HcSession) (result : Result (Unit {0})) → Outcome (λ _. Tidy) Ends s result → Tidy s
    go s (ok t) t' = t'
    go s (err e) t' = t'

-- The calls of a whole session: none; a login and its logout; or these round a stream and its end.
pub data Closed (option : StreamOption) : List SdkCall → Type 0 where
  untouched : Closed option []
  login_only : (user : ℕ) → Closed option (logs_in user ∷ logs_out user ∷ [])
  whole :
      (user handle : ℕ)
      → Closed option (
          logs_in user
          ∷ opens_stream handle
          ∷ (handle_closing option (some handle) ++ logs_out user ∷ []))

stop-Closed :
    (request : StreamRequest) (s : HcSession)
    → Tidy s
    → Closed request.option (stop request s).calls
unfolding stop
stop-Closed request s t = rw t.running (closing t.holds)
  where
    closing :
        {u h : Option ℕ} {c : List SdkCall}
        → Holds u h c
        → Closed request.option (c ++ (handle_closing request.option h ++ user_closing u))
    closing nothing = untouched
    closing (login {user}) = login_only user
    closing (stream {user} {handle}) = whole user handle

-- However the login, the lookup of the channel or the start of the stream ends, by success or by any
-- exception, the end of the session leaves nothing open at the recorder: the stream, if one was
-- opened, is stopped, then the login, if there was one, is given back, each once.
pub stop-start_Closed :
    (config : DeviceConfig) (request : StreamRequest) (queue_bytes : ℕ) (first again : Answers)
    (a : StartAnswers) (turns : List WaitTurn)
    → All LeavesHandles turns
    → Closed request.option
        (stop request (start config request first again a turns (new_session queue_bytes)).0).calls
unfolding new_session
stop-start_Closed config request queue_bytes first again a turns h = stop-Closed request _ (
    Outcome-both _ (
      (start-Tidy config request first again a turns h).at (new_session queue_bytes) (record {
        running = refl;
        no_user = refl;
        no_handle = refl;
        no_calls = refl;
        unprepared = refl;
        unstarted = refl;
      })))
