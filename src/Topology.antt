-- ===== src/Topology.antt =====
-- The channels that a recorder reports: class NvrChannelTopology of
-- cpp-sdk-http-bridge-linux/src/main.cpp. MAX_CHANNUM_V30 is the SDK's, so it is a parameter; so is
-- what the SDK answers.
pub mod Resolution
use hik_hcnet_http_bridge.Common.{
  ℕ, ◌+◌, ◌-◌, ◌*◌, ◌^◌, Bool, true, false, ◌&&◌, ◌||◌, not, Option, none, some, ltb, ◌==◌,
  if◌then◌else◌, ℤ, pos, pos_part, ltb_ℤ, leb_ℤ, max_ℤ, sub_ℕ, ◌+ℤ◌, ◌-ℤ◌,
}
use hik_hcnet_http_bridge.Error.{
  Result, ok, throw, ◌>>=◌, ◌>>◌, guard, analog_channel_unsupported, analog_channel_out_of_range,
  analog_channel_disabled, digital_channel_unsupported, digital_channel_out_of_range,
  digital_channel_index_out_of_range, channel_not_found,
}
use hik_hcnet_http_bridge.Request.{ChannelType}

-- The fields of NET_DVR_DEVICEINFO_V30 that the bridge reads, each a byte.
pub record DeviceInfo : Type 0 where
  pub start_chan : ℕ
  pub chan_num : ℕ
  pub start_digital_chan : ℕ
  pub ip_chan_num : ℕ
  pub high_digital_chan_num : ℕ

-- The fields of NET_DVR_IPPARACFG_V40, double words but for the last, bytes by index.
pub record IpConfig : Type 0 where
  pub analog_num : ℕ
  pub digital_num : ℕ
  pub start_digital : ℕ
  pub analog_enable : ℕ → ℕ

pub data ResolvedChannelType : Type 0 where
  analog digital unknown : ResolvedChannelType

pub record NvrChannelTopology : Type 0 where
  pub analog_start : ℤ
  pub analog_count : ℤ
  pub digital_start : ℤ
  pub digital_count : ℤ
  pub analog_enabled : ℕ → Bool
  pub ip_parameter_config_read : Bool

-- static_cast<int> of a double word
abbrev to_int : ℕ → ℤ
to_int n = if ltb n (2 ^ 31) then pos n else sub_ℕ n (2 ^ 32)

-- The two bytes of the count do not overlap, so `|` is a sum.
from_login : DeviceInfo → NvrChannelTopology
from_login device = record {
  analog_start =
      if ltb 0 device.chan_num && device.start_chan == 0 then pos 1 else pos device.start_chan;
  analog_count = pos device.chan_num;
  digital_start = pos device.start_digital_chan;
  digital_count = pos (device.ip_chan_num + device.high_digital_chan_num * 256);
  analog_enabled = λ index. ltb index device.chan_num;
  ip_parameter_config_read = false;
}

with_ip_config : NvrChannelTopology → IpConfig → NvrChannelTopology
with_ip_config t config = record t {
  ip_parameter_config_read = true;
  analog_count =
      if ltb 0 config.analog_num
      then max_ℤ t.analog_count (to_int config.analog_num)
      else t.analog_count;
  digital_count =
      if ltb 0 config.digital_num
      then max_ℤ t.digital_count (to_int config.digital_num)
      else t.digital_count;
  digital_start =
      if ltb 0 config.start_digital then to_int config.start_digital else t.digital_start;
  analog_enabled =
      if ltb 0 config.analog_num
      then (λ index. not (config.analog_enable index == 0))
      else t.analog_enabled;
}

-- The configuration is `none` where NET_DVR_GetDVRConfig fails.
unfoldable pub read : DeviceInfo → Option IpConfig → NvrChannelTopology
unfolding from_login with_ip_config
read device none = from_login device
read device (some config) = with_ip_config (from_login device) config

-- INT_MIN, and what is above INT_MAX
abbrev pub int_min : ℤ
int_min = sub_ℕ 0 (2 ^ 31)

abbrev pub int_end : ℤ
int_end = pos (2 ^ 31)

-- An `int` can hold the number.
unfoldable pub is_int : ℤ → Bool
is_int z = leb_ℤ int_min z && ltb_ℤ z int_end

-- What is left of a sum that an `int` cannot hold: the language leaves it open, the machine wraps around.
abbrev pub wrapped : ℤ → ℤ
wrapped z = if ltb_ℤ z int_min then z +ℤ pos (2 ^ 32) else z -ℤ pos (2 ^ 32)

-- A sum of two `int`s.
unfoldable pub int_sum : ℤ → ℤ → ℤ
unfolding is_int
int_sum a b = if is_int (a +ℤ b) then a +ℤ b else wrapped (a +ℤ b)

abbrev pub is_analog : NvrChannelTopology → ℤ → Bool
is_analog t camera =
    ltb_ℤ (pos 0) t.analog_count
    && leb_ℤ t.analog_start camera
    && ltb_ℤ camera (int_sum t.analog_start t.analog_count)

abbrev pub is_digital : NvrChannelTopology → ℤ → Bool
is_digital t camera =
    ltb_ℤ (pos 0) t.digital_count
    && leb_ℤ t.digital_start camera
    && ltb_ℤ camera (int_sum t.digital_start t.digital_count)

module _ (max_channum_v30 : ℕ) where
  -- The test of ensure_analog_enabled.
  abbrev pub is_disabled : NvrChannelTopology → ℤ → Bool
  is_disabled t camera =
      let index = camera -ℤ t.analog_start in
      t.ip_parameter_config_read
      && (ltb_ℤ index (pos 0)
          || leb_ℤ (pos max_channum_v30) index
          || not (t.analog_enabled (pos_part index)))

  resolve_analog : NvrChannelTopology → ℤ → Result (ℤ × ResolvedChannelType)
  resolve_analog t camera = do
    guard (ltb_ℤ (pos 0) t.analog_count) 422 analog_channel_unsupported
    guard (is_analog t camera) 422 analog_channel_out_of_range
    guard (not (is_disabled t camera)) 422 analog_channel_disabled
    ok (camera, ResolvedChannelType.analog)

  resolve_digital : NvrChannelTopology → ℤ → Result (ℤ × ResolvedChannelType)
  resolve_digital t camera = do
    guard (ltb_ℤ (pos 0) t.digital_count) 422 digital_channel_unsupported
    guard (is_digital t camera) 422 digital_channel_out_of_range
    ok (camera, ResolvedChannelType.digital)

  resolve_index : NvrChannelTopology → ℤ → Result (ℤ × ResolvedChannelType)
  resolve_index t camera = do
    guard (ltb_ℤ (pos 0) t.digital_count) 422 digital_channel_unsupported
    guard (not (ltb_ℤ camera (pos 0) || leb_ℤ t.digital_count camera)) 422
        digital_channel_index_out_of_range
    ok (int_sum t.digital_start camera, ResolvedChannelType.digital)

  resolve_auto : NvrChannelTopology → ℤ → Result (ℤ × ResolvedChannelType)
  resolve_auto t camera =
      if is_analog t camera
      then guard (not (is_disabled t camera)) 422 analog_channel_disabled
        >> ok (camera, ResolvedChannelType.analog)
      else if is_digital t camera
      then ok (camera, ResolvedChannelType.digital)
      else throw 422 channel_not_found

  unfoldable pub resolve : NvrChannelTopology → ℤ → ChannelType → Result (ℤ × ResolvedChannelType)
  unfolding resolve_analog resolve_digital resolve_index resolve_auto
  resolve t camera ChannelType.analog = resolve_analog t camera
  resolve t camera ChannelType.digital = resolve_digital t camera
  resolve t camera ChannelType.digital_index = resolve_index t camera
  resolve t camera ChannelType.auto = resolve_auto t camera
