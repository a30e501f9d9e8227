-- ===== src/Examples/Request.antt =====
-- Stream requests, on concrete inputs.
use hik_hcnet_http_bridge.Common.{◌≡◌, refl, [], none, some, arith, pos, if◌then◌else◌}
use hik_hcnet_http_bridge.Text.{codes, equal}
use hik_hcnet_http_bridge.Error.{ok, Returns}
use hik_hcnet_http_bridge.Query.{is_safe_session_id}
use hik_hcnet_http_bridge.Query.Numbers.{Is400}
use hik_hcnet_http_bridge.Request.{
  ChannelType, StreamRequest, playback, main, Stod, parse_stream_request, is_valid_speed,
  sixteenths,
}
use hik_hcnet_http_bridge.Request.Bounds.{
  IsWellFormed, IsWithin, IsAcceptedSpeed, parse_stream_request-IsWithin,
}
use hik_hcnet_http_bridge.Request.RoundTrip.{query_of, IsAskable, parse_stream_request-query_of}

-- A std::stod that knows one text.
abbrev pub stod : Stod
stod spelled = if equal spelled (codes "2.0") then some (sixteenths 32) else none

abbrev pub request : StreamRequest
request = record {
  option = playback;
  ip = codes "10.0.0.9";
  port = pos 8000;
  username = codes "u";
  password = codes "p";
  camera = pos 33;
  channel_type = ChannelType.digital;
  stream = main;
  speed = 32;
  start = pos 100;
  end = pos 160;
  sid = codes "s1";
  generation = [];
}

request-IsWellFormed : IsWellFormed (pos 86400) request
unfolding is_safe_session_id is_valid_speed
request-IsWellFormed = record {
  port_low = omega arith;
  port_high = omega arith;
  camera_low = omega arith;
  camera_real = λ _. omega arith;
  ip_short = omega arith;
  username_short = omega arith;
  password_short = omega arith;
  sid_short = omega arith;
  sid_safe = refl;
  speed_supported = refl;
  range = (omega arith, omega arith, omega arith);
}

request-IsAskable : IsAskable request
request-IsAskable = record {
  ip_given = λ h. cc;
  username_given = λ h. cc;
  password_given = λ h. cc;
  sid_given = λ h. cc;
  camera_int = omega arith;
  start_long = omega arith;
  end_long = omega arith;
}

parse_stream_request-IsWithin_example :
    Returns
      (IsWithin IsAcceptedSpeed (pos 86400))
      Is400
      (parse_stream_request stod (query_of request (codes "2.0")) (pos 86400))
parse_stream_request-IsWithin_example =
    parse_stream_request-IsWithin stod (query_of request (codes "2.0")) (pos 86400)

parse_stream_request-query_of_example :
    parse_stream_request stod (query_of request (codes "2.0")) (pos 86400) ≡ ok request
parse_stream_request-query_of_example =
    parse_stream_request-query_of stod (pos 86400) request (codes "2.0") (unfold equal in refl)
      request-IsWellFormed request-IsAskable
