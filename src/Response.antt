-- ===== src/Response.antt =====
-- Writing a response to the client: send_text, send_video_headers and send_chunk of
-- cpp-sdk-http-bridge-linux/src/main.cpp, over write_socket_all. What the socket does in each call is
-- given by the call's number.
pub mod Chunks
pub mod Json
pub mod Sending
use hik_hcnet_http_bridge.Common.{
  ℕ, ◌+◌, Bool, true, false, ◌&&◌, ◌==◌, [], ◌∷◌, ◌++◌, List, if◌then◌else◌, is_empty, length, ℤ,
}
use hik_hcnet_http_bridge.Text.{Bytes, codes}
use hik_hcnet_http_bridge.Text.Hex.{hex}
use hik_hcnet_http_bridge.Text.Decimal.{to_string_ℤ}
use hik_hcnet_http_bridge.Error.{Result, ok, err, client_disconnected}
use hik_hcnet_http_bridge.Effect.{Effect, ◌>>=◌, ◌>>◌, unless}
use hik_hcnet_http_bridge.Socket.{SendTurn, write_socket_all}
use hik_hcnet_http_bridge.Request.{StreamRequest, is_real_play, normal_speed}
use hik_hcnet_http_bridge.Mp4.{avc_mse_codec, initial_mp4_has_audio}

-- What went out to the client, and how many calls of write_socket_all were made.
pub record Client : Type 0 where
  pub written : Bytes
  pub writes : ℕ

abbrev pub new_client : Client
new_client = record { written = []; writes = 0 }

-- `if (!write_socket_all(...)) throw ClientDisconnected()`
abbrev pub delivered : Result Bool → Result (Unit {0})
delivered (ok true) = ok tt
delivered (ok false) = err client_disconnected
delivered (err e) = err e

abbrev pub crlf : Bytes
crlf = 13 ∷ 10 ∷ []

module _ (socket : ℕ → List SendTurn) where
  unfoldable pub send_text : Bytes → Effect Client (Unit {0})
  send_text text client =
      let (out, outcome) = write_socket_all text (socket client.writes) in
      (record { written = client.written ++ out; writes = client.writes + 1 }, delivered outcome)

  unfoldable pub send_chunk : Bytes → Effect Client (Unit {0})
  send_chunk data' = do
    send_text (hex (length data') ++ crlf)
    unless (is_empty data') (send_text data')
    send_text crlf

-- Each line of the header with its end, and the empty line.
unfoldable pub lines : List Bytes → Bytes
lines [] = crlf
lines (line ∷ rest) = line ++ (crlf ++ lines rest)

-- The audio track is announced where the stream has one and is played at the speed that it was
-- recorded at.
codecs : Bool → StreamRequest → Bytes → Bytes
codecs enable_audio request initial_mp4 =
    if enable_audio && request.speed == normal_speed && initial_mp4_has_audio initial_mp4
    then avc_mse_codec initial_mp4 ++ codes ",mp4a.40.2"
    else avc_mse_codec initial_mp4

playback_time : StreamRequest → ℤ → Bytes
playback_time request time = if is_real_play request.option then [] else to_string_ℤ time

unfoldable pub video_headers : Bool → StreamRequest → Bytes → Bytes
unfolding lines codecs playback_time
video_headers enable_audio request initial_mp4 = lines (
    codes "HTTP/1.1 200 OK"
    ∷ codes "Content-Type: video/mp4"
    ∷ codes "Transfer-Encoding: chunked"
    ∷ codes "Cache-Control: no-store, no-cache"
    ∷ codes "Accept-Ranges: none"
    ∷ codes "Access-Control-Allow-Origin: *"
    ∷ codes
        "Access-Control-Expose-Headers: X-Hik-Bridge-Mse-Codecs, X-Hik-Bridge-Video-Codec, X-Hik-Bridge-Playback-Start, X-Hik-Bridge-Playback-End, X-Hik-Bridge-Session-Id, X-Hik-Bridge-Session-Status-Url"
    ∷ (codes "X-Hik-Bridge-Mse-Codecs: " ++ codecs enable_audio request initial_mp4)
    ∷ codes "X-Hik-Bridge-Video-Codec: h264"
    ∷ (codes "X-Hik-Bridge-Playback-Start: " ++ playback_time request request.start)
    ∷ (codes "X-Hik-Bridge-Playback-End: " ++ playback_time request request.end)
    ∷ (codes "X-Hik-Bridge-Session-Id: " ++ request.sid)
    ∷ (codes "X-Hik-Bridge-Session-Status-Url: /session-status?sid=" ++ request.sid)
    ∷ codes "X-Content-Type-Options: nosniff"
    ∷ codes "Connection: close"
    ∷ [])
