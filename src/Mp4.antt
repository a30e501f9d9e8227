-- ===== src/Mp4.antt =====
-- What the bridge reads in an initialization segment: find_atom, initial_mp4_has_audio,
-- detect_video_codec and avc_mse_codec of cpp-sdk-http-bridge-linux/src/main.cpp.
pub mod Search
use hik_hcnet_http_bridge.Common.{
  ℕ, zero, suc, ◌+◌, ◌/◌, ◌%◌, Bool, true, false, ◌&&◌, not, List, [], ◌∷◌, ◌++◌, Option, none,
  some, leb, ltb, ◌==◌, if◌then◌else◌, length, get_elem?,
}
use hik_hcnet_http_bridge.Text.{Bytes, codes}
use hik_hcnet_http_bridge.Text.Hex.{hex_byte}
use hik_hcnet_http_bridge.Device.{DetectedVideoCodec, unknown, h264, h265}

-- Does the text begin with the other one?
unfoldable pub starts_with : Bytes → Bytes → Bool
starts_with atom [] = is_done atom
  where
    is_done : Bytes → Bool
    is_done [] = true
    is_done (c ∷ cs) = false
starts_with [] (x ∷ xs) = true
starts_with (c ∷ cs) (x ∷ xs) = x == c && starts_with cs xs

-- std::search: the first place of the atom, or the size where it is not there.
unfoldable pub find_atom : Bytes → Bytes → ℕ
unfolding starts_with
find_atom atom [] = 0
find_atom atom (x ∷ xs) =
    let later = suc (find_atom atom xs) in if starts_with atom (x ∷ xs) then 0 else later

unfoldable pub contains_atom : Bytes → Bytes → Bool
contains_atom atom bytes = not (find_atom atom bytes == length bytes)

unfoldable pub initial_mp4_has_audio : Bytes → Bool
initial_mp4_has_audio bytes = contains_atom (codes "soun") bytes

unfoldable pub detect_video_codec : Bytes → DetectedVideoCodec
detect_video_codec bytes =
    if contains_atom (codes "hvcC") bytes
    then h265
    else if contains_atom (codes "avcC") bytes
    then h264
    else unknown

abbrev byte_at : Bytes → ℕ → ℕ
byte_at bytes i = elim (get_elem? bytes i) [ none ↦ 0 | some c ↦ c ]

unfoldable pub avc_mse_codec : Bytes → Bytes
avc_mse_codec bytes =
    let at = find_atom (codes "avcC") bytes in
    if at == length bytes
    then codes "avc1.640029"
    else if leb (length bytes) (at + 7)
    then codes "avc1.640029"
    else codes "avc1."
      ++ hex_byte (byte_at bytes (at + 5))
      ++ hex_byte (byte_at bytes (at + 6))
      ++ hex_byte (byte_at bytes (at + 7))
