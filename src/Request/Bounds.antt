-- ===== src/Request/Bounds.antt =====
-- What parse_stream_request promises of the request that it returns, and how it fails.
use hik_hcnet_http_bridge.Common.{
  ℕ, ◌≤◌, ◌≡◌, ◌≢◌, Bool, true, false, not, arith, ℤ, pos, ◌≤ℤ◌, ◌<ℤ◌, ◌-ℤ◌, length, Option, some,
  none, ◌⊎◌, inl, inr,
}
use hik_hcnet_http_bridge.Text.{Bytes, codes}
use hik_hcnet_http_bridge.Dict.{lookup}
use hik_hcnet_http_bridge.Error.{
  ok, err, Fault, invalid_parameter, Returns, >>=-Returns, Returns-ok, Returns-err, guard,
}
use hik_hcnet_http_bridge.Query.{
  Query, required, present, is_safe_session_id, parse_int, parse_long,
}
use hik_hcnet_http_bridge.Query.Numbers.{Is400, parse_int-400, parse_long-400}
use hik_hcnet_http_bridge.Request.{
  StreamRequest, StreamOption, real_play, playback, digital_index, is_valid_speed, normal_speed,
  nan_speed, Double, sixteenths, nan, other_double, Stod, parse_stream_request, parse_option,
  parse_channel_type, parse_stream, valid_speed, parse_range, out_of_range, value_or,
}

-- The option and the times go together: a preview has the normal speed and no times, a playback
-- has times in order that span no more than the configured maximum.
abbrev pub HasRange : StreamOption → ℕ → ℤ → ℤ → ℤ → Type 0
HasRange real_play speed start end maximum =
    (speed ≡ normal_speed) × (start ≡ pos 0) × (end ≡ pos 0)
HasRange playback speed start end maximum =
    (pos 0 ≤ℤ start) × (start <ℤ end) × (end -ℤ start ≤ℤ maximum)

-- Every documented bound, with what is asked of the speed.
pub record IsWithin (Speed : ℕ → Type 0) (maximum : ℤ) (r : StreamRequest) : Type 0 where
  pub port_low : pos 1 ≤ℤ r.port
  pub port_high : r.port ≤ℤ pos 65535
  pub camera_low : pos 0 ≤ℤ r.camera
  pub camera_real : r.channel_type ≢ digital_index → pos 1 ≤ℤ r.camera
  pub ip_short : length r.ip ≤ 128
  pub username_short : length r.username ≤ 63
  pub password_short : length r.password ≤ 63
  pub sid_short : length r.sid ≤ 128
  pub sid_safe : is_safe_session_id r.sid ≡ true
  pub speed_supported : Speed r.speed
  pub range : HasRange r.option r.speed r.start r.end maximum

abbrev pub IsWellFormed : ℤ → StreamRequest → Type 0
IsWellFormed = IsWithin (λ n. is_valid_speed n ≡ true)

-- A speed is supported, or it is NaN.
abbrev pub IsAcceptedSpeed : ℕ → Type 0
IsAcceptedSpeed n = (is_valid_speed n ≡ true) ⊎ (n ≡ nan_speed)

present-400 : (value : Option Bytes) (e : Fault) → present value ≡ err e → Is400 e
unfolding present
present-400 value e h = ground arith

required-400 : (query : Query) (name : Bytes) (e : Fault) → required query name ≡ err e → Is400 e
unfolding required
required-400 query name e h = present-400 _ e h

guard-400 : (b : Bool) (e : Fault) → guard b 400 invalid_parameter ≡ err e → Is400 e
guard-400 b e h = ground arith

parse_option-400 : (text : Bytes) (e : Fault) → parse_option text ≡ err e → Is400 e
unfolding parse_option
parse_option-400 text e h = ground arith

parse_channel_type-400 : (text : Bytes) (e : Fault) → parse_channel_type text ≡ err e → Is400 e
unfolding parse_channel_type
parse_channel_type-400 text e h = ground arith

parse_stream-400 : (text : Bytes) (e : Fault) → parse_stream text ≡ err e → Is400 e
unfolding parse_stream
parse_stream-400 text e h = ground arith

valid_speed-400 : (read : Option Double) (e : Fault) → valid_speed read ≡ err e → Is400 e
unfolding valid_speed
valid_speed-400 none e h = ground arith
valid_speed-400 (some other_double) e h = ground arith
valid_speed-400 (some nan) e h = cc h
valid_speed-400 (some (sixteenths n)) e h = ground arith

valid_speed_accepted : (read : Option Double) {n : ℕ} → valid_speed read ≡ ok n → IsAcceptedSpeed n
unfolding valid_speed
valid_speed_accepted none h = cc h
valid_speed_accepted (some other_double) h = cc h
valid_speed_accepted (some nan) h = inr (ground arith)
valid_speed_accepted (some (sixteenths n)) h = inl (ground arith)

-- The times that parse_range returns.
parse_range-Returns :
    (option : StreamOption) (speed : ℕ) (query : Query) (maximum : ℤ)
    → Returns
        (λ range. HasRange option speed range.0 range.1 maximum)
        Is400
        (parse_range option speed query maximum)
unfolding parse_range
parse_range-Returns real_play speed query maximum = ground arith
parse_range-Returns playback speed query maximum =
    let P : ℤ × ℤ → Type 0 = λ range. HasRange playback speed range.0 range.1 maximum in
    >>=-Returns P Is400 (required query _) _ (required-400 query _) λ start_text _.
      >>=-Returns P Is400 (parse_long start_text) _ (parse_long-400 start_text) λ start _.
        >>=-Returns P Is400 (required query _) _ (required-400 query _) λ end_text _.
          >>=-Returns P Is400 (parse_long end_text) _ (parse_long-400 end_text)
            λ end _. ground arith

guard_passed : (b : Bool) {t : Unit {0}} → guard (not b) 400 invalid_parameter ≡ ok t → b ≡ false
guard_passed b h = ground arith

IsWithin-of :
    (maximum : ℤ) (r : StreamRequest)
    → out_of_range r.port r.camera r.channel_type r.ip r.username r.password r.sid ≡ false
    → IsAcceptedSpeed r.speed
    → HasRange r.option r.speed r.start r.end maximum
    → IsWithin IsAcceptedSpeed maximum r
IsWithin-of maximum r inside supported range = record {
  port_low = ground arith;
  port_high = ground arith;
  camera_low = ground arith;
  camera_real = λ other. ground arith;
  ip_short = ground arith;
  username_short = ground arith;
  password_short = ground arith;
  sid_short = ground arith;
  sid_safe = ground arith;
  speed_supported = supported;
  range = range;
}

module _ (stod : Stod) (query : Query) (maximum : ℤ) where
  -- parse_stream_request returns a request within every documented bound, but that a playback may have
  -- the speed NaN in place of a supported one; or it throws 400 INVALID_PARAMETER. It fails in no other
  -- way.
  pub parse_stream_request-IsWithin :
      Returns (IsWithin IsAcceptedSpeed maximum) Is400 (parse_stream_request stod query maximum)
  unfolding parse_stream_request
  parse_stream_request-IsWithin =
      let P : StreamRequest → Type 0 = IsWithin IsAcceptedSpeed maximum in
      let read_speed = stod (value_or (lookup (codes "speed") query) (codes "1")) in
      >>=-Returns P Is400 (required query _) _ (required-400 query _) λ option_text _.
        >>=-Returns P Is400 (parse_option option_text) _ (parse_option-400 option_text) λ option _.
          >>=-Returns P Is400 (required query _) _ (required-400 query _) λ ip _.
            >>=-Returns P Is400 (required query _) _ (required-400 query _) λ port_text _.
              >>=-Returns P Is400 (parse_int port_text) _ (parse_int-400 port_text) λ port _.
                >>=-Returns P Is400 (required query _) _ (required-400 query _) λ username _.
                  >>=-Returns P Is400 (required query _) _ (required-400 query _) λ password _.
                    >>=-Returns P Is400 (required query _) _ (required-400 query _) λ camera_text _.
                      >>=-Returns P Is400 (parse_int camera_text) _ (parse_int-400 camera_text)
                        λ camera _.
                          >>=-Returns P Is400 (required query _) _ (required-400 query _) λ sid _.
                            >>=-Returns P Is400 (parse_channel_type _) _ (parse_channel_type-400 _)
                              λ channel_type _.
                                >>=-Returns P Is400 (parse_stream _) _ (parse_stream-400 _)
                                  λ stream _.
                                    >>=-Returns P Is400 (valid_speed read_speed) _
                                      (valid_speed-400 read_speed)
                                      λ speed supported.
                                        >>=-Returns P Is400
                                          (guard
                                            (not (
                                              out_of_range port camera channel_type ip username
                                                password sid))
                                            400 invalid_parameter)
                                          _ (guard-400 _)
                                          λ _ inside.
                                            >>=-Returns P Is400
                                              (parse_range option speed query maximum) _
                                              (λ e h.
                                                Returns-err
                                                  (λ range.
                                                    HasRange option speed range.0 range.1 maximum)
                                                  Is400 h
                                                  (parse_range-Returns option speed query maximum))
                                              λ range read.
                                                IsWithin-of maximum _ (guard_passed _ inside)
                                                  (valid_speed_accepted read_speed supported)
                                                  (Returns-ok
                                                    (λ range.
                                                      HasRange option speed range.0 range.1 maximum)
                                                    Is400 read
                                                    (parse_range-Returns option speed query
                                                      maximum))
