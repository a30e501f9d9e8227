-- ===== src/Http/Cleanup.antt =====
-- Only a confirmed request cleans the sessions.
use hik_hcnet_http_bridge.Common.{
  ◌≡◌, ◌≢◌, refl, ap, subst, true, false, ℤ, ◌⊎◌, inl, inr, Bool-cases, Option, none, some, arith,
}
use hik_hcnet_http_bridge.Text.{Bytes, codes, equal, equal_iff, eq_of_equal}
use hik_hcnet_http_bridge.Dict.{lookup}
use hik_hcnet_http_bridge.Error.{ok}
use hik_hcnet_http_bridge.Effect.{pure, lift, either}
use hik_hcnet_http_bridge.Effect.Keeps.{Keeps, keeps_rules}
use hik_hcnet_http_bridge.Request.{Stod}
use hik_hcnet_http_bridge.Sessions.{SessionRegistry}
use hik_hcnet_http_bridge.Status.{Now}
use hik_hcnet_http_bridge.Http.{
  HttpRequest, Server, has_text, clean_all, is_confirmed, clean_now, clean_sessions, status_of,
  frame_of, status_route, frame_route, video_route, get_route, route,
}

-- The request is a POST with apply=true and the header X-Hik-Cleanup: true.
pub record IsConfirmed (request : HttpRequest) : Type 0 where
  pub method : request.method ≡ codes "POST"
  pub apply : lookup (codes "apply") request.query ≡ some (codes "true")
  pub header : lookup (codes "x-hik-cleanup") request.headers ≡ some (codes "true")

-- The request asks for a cleanup as it must.
pub record AsksCleanup (request : HttpRequest) : Type 0 where
  pub path : request.path ≡ codes "/cleanSessions"
  pub confirmed : IsConfirmed request

has_text_eq : (found : Option Bytes) (text : Bytes) → has_text found text ≡ true → found ≡ some text
has_text_eq none text e = cc e
has_text_eq (some value) text e = ap some (eq_of_equal value text e)

text_had : (found : Option Bytes) (text : Bytes) → found ≡ some text → has_text found text ≡ true
text_had none text e = cc e
text_had (some value) text e = (equal_iff value text).1 (ground (arith, e))

abbrev Same : SessionRegistry → Server → Type 0
Same r s = s.registry ≡ r

module _ (now : Now) (message : Bytes) where
  unconfirmed :
      (request : HttpRequest) → is_confirmed now message request ≡ false → ¬ (IsConfirmed request)
  unfolding is_confirmed
  unconfirmed request e h = cc (
    e,
    text_had (lookup (codes "apply") request.query) (codes "true") h.apply,
    text_had (lookup (codes "x-hik-cleanup") request.headers) (codes "true") h.header,
  )

  confirmed :
      (request : HttpRequest)
      → equal request.method (codes "POST") ≡ true
      → is_confirmed now message request ≡ true
      → IsConfirmed request
  unfolding is_confirmed
  confirmed request e f = record {
    method = eq_of_equal request.method (codes "POST") e;
    apply = has_text_eq (lookup (codes "apply") request.query) (codes "true") (ground (arith, f));
    header =
        has_text_eq (lookup (codes "x-hik-cleanup") request.headers) (codes "true")
          (ground (arith, f));
  }

  not_post : (method : Bytes) → equal method (codes "OPTIONS") ≡ true → method ≢ codes "POST"
  unfolding equal
  not_post method e h = cc (subst (λ m. equal m (codes "OPTIONS") ≡ true) h e)

  clean_sessions_lem :
      (request : HttpRequest) (s : Server)
      → IsConfirmed request
          × (clean_sessions now message request s
              ≡ ((clean_all now message s).0, ok (clean_all now message s).1))
        ⊎ (¬ (IsConfirmed request)) × Same s.registry (clean_sessions now message request s).0
  unfolding clean_sessions clean_now either pure lift
  clean_sessions_lem request s = elim (Bool-cases (equal request.method (codes "OPTIONS"))) [
    | inl e ↦ inr (λ h. not_post request.method e h.method, simp e refl)
    | inr e ↦ elim (Bool-cases (equal request.method (codes "POST"))) [
      | inr e' ↦
          inr
            (λ h. cc (e', (equal_iff request.method (codes "POST")).1 h.method), simp (e, e') refl)
      | inl e' ↦ elim (Bool-cases (is_confirmed now message request)) [
        | inr e'' ↦ inr (unconfirmed request e'', simp (e, e', e'') refl)
        | inl e'' ↦ inl (confirmed request e' e'', simp (e, e', e'') refl)
      ]
    ]
  ]

  status_of-Same : (r : SessionRegistry) (sid : Bytes) → Keeps (Same r) (status_of now message sid)
  unfolding status_of
  status_of-Same r sid = record { at = λ s h. h }

  frame_of-Same :
      (r : SessionRegistry) (sid : Bytes) (z : ℤ) → Keeps (Same r) (frame_of now message sid z)
  unfolding frame_of
  frame_of-Same r sid z = record { at = λ s h. h }

  module _ (stod : Stod) (maximum : ℤ) where
    get_route-Same :
        (request : HttpRequest) (r : SessionRegistry)
        → Keeps (Same r) (get_route now message stod maximum request)
    unfolding get_route status_route frame_route video_route
    get_route-Same request r = search (keeps_rules, status_of-Same, frame_of-Same) depth 9

    -- Up to where a video begins, a request changes the sessions only if it is a POST of /cleanSessions
    -- with apply=true and the header X-Hik-Cleanup: true, and exactly then by one cleanup of all of them.
    pub route-AsksCleanup :
        (request : HttpRequest) (s : Server)
        → AsksCleanup request
            × (route now message stod maximum request s
                ≡ ((clean_all now message s).0, ok (clean_all now message s).1))
          ⊎ (¬ (AsksCleanup request))
            × ((route now message stod maximum request s).0.registry ≡ s.registry)
    unfolding route either pure lift
    route-AsksCleanup request s = elim (Bool-cases (equal request.path (codes "/cleanSessions"))) [
      | inl e ↦ elim (clean_sessions_lem request s) [
        | inl (asked, done) ↦ inl (
          record { path = eq_of_equal request.path (codes "/cleanSessions") e; confirmed = asked },
          simp e done,
        )
        | inr (unasked, same) ↦ inr (λ h. unasked h.confirmed, simp e same)
      ]
      | inr e ↦
          let elsewhere : ¬ (AsksCleanup request) =
            λ h. cc (e, (equal_iff request.path (codes "/cleanSessions")).1 h.path) in
          elim (Bool-cases (equal request.method (codes "OPTIONS"))) [
            | inl f ↦ inr (elsewhere, simp (e, f) refl)
            | inr f ↦ elim (Bool-cases (equal request.method (codes "GET"))) [
              | inl g ↦
                  inr (elsewhere, simp (e, f, g) ((get_route-Same request s.registry).at s refl))
              | inr g ↦ inr (elsewhere, simp (e, f, g) refl)
            ]
          ]
    ]
