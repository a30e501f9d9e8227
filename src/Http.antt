-- ===== src/Http.antt =====
-- The control interface: HttpRequest and the routes of handle_connection in
-- cpp-sdk-http-bridge-linux/src/main.cpp, for a request that is read. A response is its status and what
-- its body tells; the texts around it are left out. The clock is read once.
pub mod Cleanup
pub mod Reading
pub mod Spelling
use hik_hcnet_http_bridge.Common.{
  ℕ, ◌+◌, Bool, true, false, ◌&&◌, ◌||◌, not, List, [], ◌∷◌, Option, none, some, if◌then◌else◌, ℤ,
  pos, ltb_ℤ, is_empty, ◌==◌,
}
use hik_hcnet_http_bridge.Text.{Bytes, codes, equal}
use hik_hcnet_http_bridge.Text.Stoll.{stoll}
use hik_hcnet_http_bridge.Dict.{lookup}
use hik_hcnet_http_bridge.Error.{
  Fault, Result, ok, err, throw, ErrorCode, bridge_error, client_disconnected, other_exception,
  method_not_allowed, not_found, invalid_parameter, internal_error,
}
use hik_hcnet_http_bridge.Effect.{Effect, pure, ◌>>=◌, ◌>>◌, modify, lift, look, either}
use hik_hcnet_http_bridge.EndReason.{manual_cleanup}
use hik_hcnet_http_bridge.Query.{Query}
use hik_hcnet_http_bridge.Request.{StreamRequest, Stod, parse_stream_request}
use hik_hcnet_http_bridge.Sessions.{SessionRegistry, Cleaned, clean, cleaning, Counts, counts}
use hik_hcnet_http_bridge.Status.{
  Now, Statuses, SessionStatus, set_ended, set_browser_first_frame, get,
}

pub record HttpRequest : Type 0 where
  pub method : Bytes
  pub path : Bytes
  pub query : Query
  pub headers : Query

pub data Body : Type 0 where
  no_content version rendered : Body
  -- affectedSessions, cleaningSessions, generation
  cleaned : ℕ → ℕ → Bytes → Body
  -- the counts, the generation, cleaningSessions
  health : Counts → Bytes → ℕ → Body
  session_status : SessionStatus → Body
  -- SESSION_NOT_FOUND, and the session that was asked for
  not_available : Bytes → Body
  -- the request goes to handle_video, which writes its own response
  video : StreamRequest → Body

pub record Response : Type 0 where
  pub status : ℕ
  pub body : Body

-- What the requests share.
pub record Server : Type 0 where
  pub registry : SessionRegistry
  pub statuses : Statuses

-- `map.count(name) && map.at(name) == text`
abbrev pub has_text : Option Bytes → Bytes → Bool
has_text none text = false
has_text (some value) text = equal value text

-- A parameter that must be there and not be empty.
abbrev pub given : Option Bytes → Result Bytes
given none = throw 400 invalid_parameter
given (some value) = if is_empty value then throw 400 invalid_parameter else ok value

abbrev elapsed_number : Option (ℤ × ℕ) → Result ℤ
elapsed_number none = throw 400 invalid_parameter
elapsed_number (some (z, used)) =
    if ltb_ℤ z (pos 0) || ltb_ℤ (pos 600000) z then throw 400 invalid_parameter else ok z

-- elapsedMs, zero where it is missing
abbrev elapsed : Option Bytes → Result ℤ
elapsed none = ok (pos 0)
elapsed (some text) = elapsed_number (stoll text)

abbrev pub answer_ok : Body → Response
answer_ok body = record { status = 200; body = body }

module _ (now : Now) (message : Bytes) where
  -- The end of each session that a cleanup reaches.
  abbrev pub mark : Bytes → Statuses → Statuses
  mark sid =
      set_ended now sid manual_cleanup message (record { current = 0; peak = 0; backpressure = 0 })

  -- Behind the tests of /cleanSessions.
  unfoldable pub clean_all : Server → Server × Response
  clean_all s =
      let (registry, swept) = clean mark s.registry s.statuses in
      let remaining = cleaning registry in
      (
        record { registry = registry; statuses = swept.statuses },
        record {
          status = if remaining == 0 then 200 else 202;
          body = cleaned swept.affected remaining registry.generation;
        },
      )

  unfoldable pub is_confirmed : HttpRequest → Bool
  is_confirmed request =
      has_text (lookup (codes "apply") request.query) (codes "true")
      && has_text (lookup (codes "x-hik-cleanup") request.headers) (codes "true")

  clean_now : Effect Server Response
  clean_now s = ((clean_all s).0, ok (clean_all s).1)

  clean_sessions : HttpRequest → Effect Server Response
  unfolding clean_now
  clean_sessions request =
      either (equal request.method (codes "OPTIONS"))
        (pure (record { status = 204; body = no_content }))
        (either (not (equal request.method (codes "POST"))) (lift (throw 405 method_not_allowed))
          (either (not (is_confirmed request)) (lift (throw 400 invalid_parameter)) clean_now))

  available : Bytes → Option SessionStatus → Response
  available sid none = record { status = 404; body = not_available sid }
  available sid (some value) = answer_ok (session_status value)

  status_of : Bytes → Effect Server Response
  unfolding available
  status_of sid s =
      let (statuses, value) = get now sid s.statuses in
      (record s { statuses = statuses }, ok (available sid value))

  seen : Bytes → Option (ℤ × ℤ) → Response
  seen sid none = record { status = 404; body = not_available sid }
  seen sid (some timing) = answer_ok rendered

  frame_of : Bytes → ℤ → Effect Server Response
  unfolding seen
  frame_of sid client_elapsed s =
      let (statuses, timing) = set_browser_first_frame now sid client_elapsed s.statuses in
      (record s { statuses = statuses }, ok (seen sid timing))

  status_route : HttpRequest → Effect Server Response
  unfolding status_of
  status_route request = do sid ← lift (given (lookup (codes "sid") request.query)); status_of sid

  frame_route : HttpRequest → Effect Server Response
  unfolding frame_of
  frame_route request = do
    sid ← lift (given (lookup (codes "sid") request.query))
    client_elapsed ← lift (elapsed (lookup (codes "elapsedMs") request.query))
    frame_of sid client_elapsed

  module _ (stod : Stod) (maximum : ℤ) where
    video_route : HttpRequest → Effect Server Response
    video_route request = do
      stream_request ← lift (parse_stream_request stod request.query maximum)
      pure (answer_ok (video stream_request))

    -- The routes of GET.
    get_route : HttpRequest → Effect Server Response
    unfolding status_route frame_route video_route
    get_route request =
        either (equal request.path (codes "/healthz") || equal request.path (codes "/"))
          (look
            (λ s.
              answer_ok (health (counts s.registry) s.registry.generation (cleaning s.registry)))
            pure)
          (either (equal request.path (codes "/version")) (pure (answer_ok version)) (
            either (equal request.path (codes "/session-status")) (status_route request) (
              either (equal request.path (codes "/session-rendered")) (frame_route request) (
                either (not (equal request.path (codes "/video"))) (lift (throw 404 not_found))
                  (video_route request)))))

    unfoldable pub route : HttpRequest → Effect Server Response
    unfolding clean_sessions get_route
    route request = either (equal request.path (codes "/cleanSessions")) (clean_sessions request) (
        either (equal request.method (codes "OPTIONS"))
          (pure (record { status = 204; body = no_content }))
          (either (not (equal request.method (codes "GET"))) (lift (throw 405 method_not_allowed))
            (get_route request)))

-- The handlers of handle_connection: the status and the code that are sent, if any.
unfoldable pub error_response : Bool → Fault → Option (ℕ × ErrorCode)
error_response response_started client_disconnected = none
error_response true _ = none
error_response false (bridge_error status code) = some (status, code)
error_response false other_exception = some (500, internal_error)
