-- ===== src/Response/Json.antt =====
-- The JSON answers of the bridge: json_escape, send_json_body and send_json of
-- cpp-sdk-http-bridge-linux/src/main.cpp.
pub mod RoundTrip
use hik_hcnet_http_bridge.Common.{
  ℕ, ◌||◌, ◌==◌, [], ◌∷◌, ◌++◌, List, if◌then◌else◌, is_empty, length, pos,
}
use hik_hcnet_http_bridge.Text.{Bytes, codes}
use hik_hcnet_http_bridge.Text.Decimal.{to_string, to_string_ℤ}
use hik_hcnet_http_bridge.Effect.{Effect}
use hik_hcnet_http_bridge.Socket.{SendTurn}
use hik_hcnet_http_bridge.Response.{Client, lines, send_text}

unfoldable pub json_escape : Bytes → Bytes
json_escape [] = []
json_escape (c ∷ cs) =
    if c == b'"' || c == b'\\' then b'\\' ∷ (c ∷ json_escape cs) else c ∷ json_escape cs

abbrev status_text : ℕ → Bytes
status_text status =
    if status == 200
    then codes "OK"
    else if status == 202
    then codes "Accepted"
    else if status == 403
    then codes "Forbidden"
    else if status == 409
    then codes "Conflict"
    else if status == 204
    then codes "No Content"
    else if status == 400
    then codes "Bad Request"
    else if status == 404
    then codes "Not Found"
    else if status == 405
    then codes "Method Not Allowed"
    else if status == 503
    then codes "Service Unavailable"
    else codes "Bad Gateway"

unfoldable pub json_headers : ℕ → Bytes → Bytes
unfolding lines
json_headers status body = lines (
    (codes "HTTP/1.1 " ++ (to_string status ++ (codes " " ++ status_text status)))
    ∷ codes "Content-Type: application/json; charset=utf-8"
    ∷ (codes "Content-Length: " ++ to_string (length body))
    ∷ codes "Cache-Control: no-store"
    ∷ codes "Access-Control-Allow-Origin: *"
    ∷ codes "Connection: close"
    ∷ [])

unfoldable pub send_json_body : (ℕ → List SendTurn) → ℕ → Bytes → Effect Client (Unit {0})
send_json_body socket status body = send_text socket (json_headers status body ++ body)

-- A value in quotes behind the text that announces it.
abbrev pub field : Bytes → Bytes → Bytes → Bytes
field name value rest = name ++ (json_escape value ++ b'"' ∷ rest)

abbrev pub code_name : Bytes
code_name = codes "{\"code\":\""

abbrev pub message_name : Bytes
message_name = codes ",\"message\":\""

abbrev pub request_id_name : Bytes
request_id_name = codes ",\"requestId\":\""

-- The end of the body: a session that has no name is left out.
abbrev pub request_id : Bytes → Bytes
request_id sid = if is_empty sid then b'}' ∷ [] else field request_id_name sid (b'}' ∷ [])

unfoldable pub error_body : Bytes → Bytes → Bytes → Bytes
error_body code message sid = field code_name code (field message_name message (request_id sid))

unfoldable pub send_json :
    (ℕ → List SendTurn) → ℕ → Bytes → Bytes → Bytes → Effect Client (Unit {0})
unfolding send_json_body
send_json socket status code message sid =
    send_json_body socket status (error_body code message sid)
