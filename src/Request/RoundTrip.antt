-- ===== src/Request/RoundTrip.antt =====
-- Every well-formed request can be asked for: the query that spells it out is read as that request.
use hik_hcnet_http_bridge.Common.{ℕ, ◌≡◌, ◌≢◌, refl, true, false, [], ◌∷◌, some, arith, ℤ, ◌≤ℤ◌}
use hik_hcnet_http_bridge.Text.{Bytes, codes, equal}
use hik_hcnet_http_bridge.Text.Decimal.{to_string_ℤ, to_string_ℤ-ne-nil}
use hik_hcnet_http_bridge.Text.Stoll.{IsLong}
use hik_hcnet_http_bridge.Dict.{lookup}
use hik_hcnet_http_bridge.Error.{ok}
use hik_hcnet_http_bridge.Query.{Query, present, required, parse_int, int32_max}
use hik_hcnet_http_bridge.Query.Numbers.{parse_int-to_string_ℤ, parse_long-to_string_ℤ}
use hik_hcnet_http_bridge.Request.{
  StreamRequest, StreamOption, real_play, playback, StreamKind, main, sub, ChannelType, auto,
  analog, digital, digital_index, is_valid_speed, sixteenths, Stod, parse_stream_request,
  parse_option, parse_channel_type, parse_stream, valid_speed, parse_range, out_of_range,
}
use hik_hcnet_http_bridge.Request.Bounds.{IsWellFormed, HasRange}

abbrev pub option_text : StreamOption → Bytes
option_text real_play = codes "realplay"
option_text playback = codes "playback"

abbrev pub channel_type_text : ChannelType → Bytes
channel_type_text auto = codes "auto"
channel_type_text analog = codes "analog"
channel_type_text digital = codes "digital"
channel_type_text digital_index = codes "digitalIndex"

abbrev pub stream_text : StreamKind → Bytes
stream_text main = codes "main"
stream_text sub = codes "sub"

-- The parameters that ask for the request, with the speed as the client spells it.
abbrev pub query_of : StreamRequest → Bytes → Query
query_of r speed =
    (codes "option", option_text r.option)
    ∷ (codes "ip", r.ip)
    ∷ (codes "port", to_string_ℤ r.port)
    ∷ (codes "username", r.username)
    ∷ (codes "password", r.password)
    ∷ (codes "camera", to_string_ℤ r.camera)
    ∷ (codes "sid", r.sid)
    ∷ (codes "channelType", channel_type_text r.channel_type)
    ∷ (codes "stream", stream_text r.stream)
    ∷ (codes "speed", speed)
    ∷ (codes "start", to_string_ℤ r.start)
    ∷ (codes "end", to_string_ℤ r.end)
    ∷ (codes "generation", r.generation)
    ∷ []

-- The texts that must not be empty, and the times, fit what the query can say.
pub record IsAskable (r : StreamRequest) : Type 0 where
  pub ip_given : r.ip ≢ []
  pub username_given : r.username ≢ []
  pub password_given : r.password ≢ []
  pub sid_given : r.sid ≢ []
  pub camera_int : r.camera ≤ℤ int32_max
  pub start_long : IsLong r.start
  pub end_long : IsLong r.end

present_given : (t : Bytes) → t ≢ [] → present (some t) ≡ ok t
unfolding present
present_given [] h = absurd (h refl)
present_given (c ∷ cs) h = refl

parse_option_text : (o : StreamOption) → parse_option (option_text o) ≡ ok o
unfolding parse_option equal
parse_option_text real_play = refl
parse_option_text playback = refl

parse_channel_type_text : (c : ChannelType) → parse_channel_type (channel_type_text c) ≡ ok c
unfolding parse_channel_type equal
parse_channel_type_text auto = refl
parse_channel_type_text analog = refl
parse_channel_type_text digital = refl
parse_channel_type_text digital_index = refl

parse_stream_text : (k : StreamKind) → parse_stream (stream_text k) ≡ ok k
unfolding parse_stream equal
parse_stream_text main = refl
parse_stream_text sub = refl

valid_speed_ok : (n : ℕ) → is_valid_speed n ≡ true → valid_speed (some (sixteenths n)) ≡ ok n
unfolding valid_speed
valid_speed_ok n h = rw h

inside :
    (maximum : ℤ) (r : StreamRequest)
    → IsWellFormed maximum r
    → out_of_range r.port r.camera r.channel_type r.ip r.username r.password r.sid ≡ false
inside maximum r w = ground arith

required_text :
    (query : Query) (name t : Bytes)
    → lookup name query ≡ some t
    → t ≢ []
    → required query name ≡ ok t
unfolding required
required_text query name t e h = rw e (present_given t h)

option_text-ne-nil : (o : StreamOption) → option_text o ≢ []
option_text-ne-nil real_play e = cc
option_text-ne-nil playback e = cc

parse_range_back :
    (maximum : ℤ) (r : StreamRequest) (speed : Bytes)
    → HasRange r.option r.speed r.start r.end maximum
    → IsAskable r
    → parse_range r.option r.speed (query_of r speed) maximum ≡ ok (r.start, r.end)
parse_range_back maximum r speed h k = go r.option refl h
  where
    query : Query
    query = query_of r speed

    start_there : required query (codes "start") ≡ ok (to_string_ℤ r.start)
    start_there = required_text query _ _ (unfold lookup equal in refl) (to_string_ℤ-ne-nil r.start)

    end_there : required query (codes "end") ≡ ok (to_string_ℤ r.end)
    end_there = required_text query _ _ (unfold lookup equal in refl) (to_string_ℤ-ne-nil r.end)

    go :
        (o : StreamOption)
        → r.option ≡ o
        → HasRange o r.speed r.start r.end maximum
        → parse_range o r.speed query maximum ≡ ok (r.start, r.end)
    go real_play e (normal, zero_start, zero_end) = unfold parse_range in ground arith
    go playback e (low, ordered, short) =
        unfold parse_range in
        rw start_there (
          rw (parse_long-to_string_ℤ r.start k.start_long)
            (rw end_there (rw (parse_long-to_string_ℤ r.end k.end_long) (ground arith))))

module _ (r : StreamRequest) (speed : Bytes) where
  -- A parameter that the query lists and that is not empty is found.
  asked :
      (name t : Bytes)
      → lookup name (query_of r speed) ≡ some t
      → t ≢ []
      → required (query_of r speed) name ≡ ok t
  asked name t = required_text (query_of r speed) name t

  module _ (maximum : ℤ) (w : IsWellFormed maximum r) (k : IsAskable r) where
    port_back : parse_int (to_string_ℤ r.port) ≡ ok r.port
    port_back = parse_int-to_string_ℤ r.port (omega arith) (omega arith)

    camera_back : parse_int (to_string_ℤ r.camera) ≡ ok r.camera
    camera_back = parse_int-to_string_ℤ r.camera (omega arith) k.camera_int

-- The query that spells a well-formed request out is accepted, and read as that request, with the
-- texts not empty, the times and the camera in the ranges of their types, and the speed spelled so
-- that std::stod reads it.
pub parse_stream_request-query_of :
    (stod : Stod) (maximum : ℤ) (r : StreamRequest) (speed : Bytes)
    → stod speed ≡ some (sixteenths r.speed)
    → IsWellFormed maximum r
    → IsAskable r
    → parse_stream_request stod (query_of r speed) maximum ≡ ok r
unfolding parse_stream_request lookup equal
parse_stream_request-query_of stod maximum r speed spelled w k =
    rw (asked r speed (codes "option") (option_text r.option) refl (option_text-ne-nil r.option)) (
      rw (parse_option_text r.option) (
        rw (asked r speed (codes "ip") r.ip refl k.ip_given) (
          rw (asked r speed (codes "port") _ refl (to_string_ℤ-ne-nil r.port)) (
            rw (port_back r speed maximum w k) (
              rw (asked r speed (codes "username") r.username refl k.username_given) (
                rw (asked r speed (codes "password") r.password refl k.password_given) (
                  rw (asked r speed (codes "camera") _ refl (to_string_ℤ-ne-nil r.camera)) (
                    rw (camera_back r speed maximum w k) (
                      rw (asked r speed (codes "sid") r.sid refl k.sid_given) (
                        rw (parse_channel_type_text r.channel_type) (
                          rw (parse_stream_text r.stream) (
                            rw spelled (
                              rw (valid_speed_ok r.speed w.speed_supported) (
                                rw (inside maximum r w)
                                  (rw (parse_range_back maximum r speed w.range k))))))))))))))))
