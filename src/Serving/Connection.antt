-- ===== src/Serving/Connection.antt =====
-- A request from its route to its end: handle_connection of cpp-sdk-http-bridge-linux/src/main.cpp for
-- a request that is read, with the video that it may ask for.
use hik_hcnet_http_bridge.Common.{◌≡◌, refl, ap, subst, sym, ℕ, ℤ, ◌⊎◌, inl, inr, Option}
use hik_hcnet_http_bridge.Text.{Bytes}
use hik_hcnet_http_bridge.Error.{Fault, Result, ok, err}
use hik_hcnet_http_bridge.Request.{Stod}
use hik_hcnet_http_bridge.Status.{Now}
use hik_hcnet_http_bridge.Sessions.{SessionRegistry, counts}
use hik_hcnet_http_bridge.Sessions.Invariant.{IsValid}
use hik_hcnet_http_bridge.Http.{
  HttpRequest, Body, no_content, version, rendered, cleaned, health, session_status, not_available,
  video, Response, Server, clean_all, route,
}
use hik_hcnet_http_bridge.Http.Cleanup.{AsksCleanup, route-AsksCleanup}
use hik_hcnet_http_bridge.Video.{Outside}
use hik_hcnet_http_bridge.Serving.{Streaming, ServingConfig, Bridge, handle_video}
use hik_hcnet_http_bridge.Serving.Restoring.{handle_video-IsRestored}

module _ (config : ServingConfig) (outside : Outside) (streaming : Streaming) (now : Now)
    (message : Bytes) (stod : Stod) (maximum : ℤ) where
  abbrev pub server_of : Bridge → Server
  server_of bridge = record { registry = bridge.registry; statuses = bridge.statuses }

  abbrev behind_route : Bridge → Server → Bridge
  behind_route bridge s = record bridge { registry = s.registry; statuses = s.statuses }

  -- Only a video goes on behind its route.
  abbrev on_body : Option Fault → Option ℕ → Bridge → Body → Bridge
  on_body checked fd bridge (video request) =
      (handle_video config request outside streaming checked fd bridge).bridge
  on_body checked fd bridge _ = bridge

  abbrev on_route : Option Fault → Option ℕ → Bridge → Server × Result Response → Bridge
  on_route checked fd bridge (s, ok response) =
      on_body checked fd (behind_route bridge s) response.body
  on_route checked fd bridge (s, err e) = behind_route bridge s

  -- What the request leaves: `checked` and `fd` are those of handle_video.
  unfoldable pub handle_connection : Option Fault → Option ℕ → HttpRequest → Bridge → Bridge
  handle_connection checked fd request bridge =
      on_route checked fd bridge (route now message stod maximum request (server_of bridge))

  -- The sessions and the free slots are as they were.
  pub record IsSame (before after : SessionRegistry) : Type 0 where
    pub states : after.states ≡ before.states
    pub counted : counts after ≡ counts before

  registry-IsSame : (before after : SessionRegistry) → after ≡ before → IsSame before after
  registry-IsSame before after e = record {
    states = ap (λ (r : SessionRegistry). r.states) e;
    counted = ap counts e;
  }

  on_body-IsSame :
      (checked : Option Fault) (fd : Option ℕ) (bridge : Bridge) (body : Body)
      → IsValid bridge.registry
      → IsSame bridge.registry (on_body checked fd bridge body).registry
  on_body-IsSame checked fd bridge (video request) valid =
      let h = handle_video-IsRestored config request outside streaming checked fd bridge valid in
      record { states = h.states; counted = h.counted }
  on_body-IsSame checked fd bridge no_content valid = registry-IsSame bridge.registry _ refl
  on_body-IsSame checked fd bridge version valid = registry-IsSame bridge.registry _ refl
  on_body-IsSame checked fd bridge rendered valid = registry-IsSame bridge.registry _ refl
  on_body-IsSame checked fd bridge (cleaned n m token) valid =
      registry-IsSame bridge.registry _ refl
  on_body-IsSame checked fd bridge (health numbers token n) valid =
      registry-IsSame bridge.registry _ refl
  on_body-IsSame checked fd bridge (session_status value) valid =
      registry-IsSame bridge.registry _ refl
  on_body-IsSame checked fd bridge (not_available sid) valid =
      registry-IsSame bridge.registry _ refl

  on_route-IsSame :
      (checked : Option Fault) (fd : Option ℕ) (bridge : Bridge) (s : Server) (r : Result Response)
      → IsValid bridge.registry
      → s.registry ≡ bridge.registry
      → IsSame bridge.registry (on_route checked fd bridge (s, r)).registry
  on_route-IsSame checked fd bridge s (err e) valid same = registry-IsSame bridge.registry _ same
  on_route-IsSame checked fd bridge s (ok response) valid same =
      subst (λ before. IsSame before (on_route checked fd bridge (s, ok response)).registry) same
        (on_body-IsSame checked fd (behind_route bridge s) response.body
          (subst IsValid (sym same) valid))

  -- A request that is read changes the sessions for good only if it is a POST of /cleanSessions with
  -- apply=true and the header X-Hik-Cleanup: true, and exactly then by one cleanup of all of them. Any
  -- other, also one for a video, leaves the sessions and the free slots behind it as they were.
  pub handle_connection-AsksCleanup :
      (checked : Option Fault) (fd : Option ℕ) (request : HttpRequest) (bridge : Bridge)
      → IsValid bridge.registry
      → AsksCleanup request
          × ((handle_connection checked fd request bridge).registry
              ≡ (clean_all now message (server_of bridge)).0.registry)
        ⊎ (¬ (AsksCleanup request))
          × IsSame bridge.registry (handle_connection checked fd request bridge).registry
  unfolding handle_connection clean_all
  handle_connection-AsksCleanup checked fd request bridge valid =
      elim (route-AsksCleanup now message stod maximum request (server_of bridge)) [
        | inl (asked, done) ↦ inl (asked, ap (λ x. (on_route checked fd bridge x).registry) done)
        | inr (unasked, same) ↦ inr (unasked, on_route-IsSame checked fd bridge _ _ valid same)
      ]
