-- ===== src/Examples/Response.antt =====
-- The body of an error, on concrete inputs.
use hik_hcnet_http_bridge.Common.{refl, ◌≡◌, some}
use hik_hcnet_http_bridge.Text.{Bytes, codes}
use hik_hcnet_http_bridge.Response.Json.{error_body, json_escape}
use hik_hcnet_http_bridge.Response.Json.RoundTrip.{read_error, read_error-error_body}

-- A name of a session with a quote and a backslash.
abbrev sid : Bytes
sid = codes "a\"b\\"

error_body_run :
    error_body (codes "BAD_REQUEST") (codes "no") sid
    ≡ codes "{\"code\":\"BAD_REQUEST\",\"message\":\"no\",\"requestId\":\"a\\\"b\\\\\"}"
unfolding error_body json_escape
error_body_run = refl

read_error-error_body_example :
    read_error (error_body (codes "BAD_REQUEST") (codes "no") sid)
    ≡ some (codes "BAD_REQUEST", (codes "no", sid))
read_error-error_body_example =
    read_error-error_body (codes "BAD_REQUEST") (codes "no") sid
      (refl, (refl, (refl, (refl, (refl, (refl, (refl, (refl, (refl, (refl, (refl, tt)))))))))))
      (refl, (refl, tt)) (refl, (refl, (refl, (refl, tt))))
