-- ===== src/Query.antt =====
-- Query strings of the HTTP interface: url_decode, parse_query, required, is_safe_session_id,
-- parse_long and parse_int of cpp-sdk-http-bridge-linux/src/main.cpp.
pub mod Encoding
pub mod Numbers
use hik_hcnet_http_bridge.Common.{
  ℕ, ◌+◌, ◌-◌, ◌*◌, ◌^◌, Bool, true, false, ◌&&◌, ◌||◌, not, List, [], ◌∷◌, Option, none, some, leb,
  ◌==◌, if◌then◌else◌, ℤ, pos, negsuc, ltb_ℤ, is_empty, all, length,
}
use hik_hcnet_http_bridge.Text.{Bytes, codes, within, is_digit}
use hik_hcnet_http_bridge.Text.Hex.{is_xdigit, xdigit_value}
use hik_hcnet_http_bridge.Text.Separated.{break_at, split}
use hik_hcnet_http_bridge.Text.Stoll.{stoll}
use hik_hcnet_http_bridge.Dict.{Dict, lookup, insert}
use hik_hcnet_http_bridge.Error.{Result, ok, err, ◌>>=◌, ◌>>◌, guard, throw, invalid_parameter}

abbrev pub plus_to_space : ℕ → ℕ
plus_to_space c = if c == b'+' then 32 else c

unfoldable pub url_decode : Bytes → Bytes
url_decode [] = []
url_decode (c ∷ []) = plus_to_space c ∷ []
url_decode (c ∷ d ∷ []) = plus_to_space c ∷ url_decode (d ∷ [])
url_decode (c ∷ h ∷ l ∷ rest) =
    let escaped = (xdigit_value h * 16 + xdigit_value l) ∷ url_decode rest in
    let plain = plus_to_space c ∷ url_decode (h ∷ l ∷ rest) in
    if c == b'%' && is_xdigit h && is_xdigit l then escaped else plain

abbrev pub Query : Type 0
Query = Dict Bytes

abbrev pub or_empty : Option Bytes → Bytes
or_empty none = []
or_empty (some t) = t

-- One turn of the loop: `part` goes into the map, over an earlier value of its key.
unfoldable pub add_part : Bytes → Query → Query
unfolding url_decode
add_part part query =
    let (name, value) = break_at b'=' part in
    insert (url_decode name) (url_decode (or_empty value)) query

unfoldable pub add_parts : List Bytes → Query → Query
add_parts [] query = query
add_parts (part ∷ parts) query = add_parts parts (add_part part query)

unfoldable pub parse_query : Bytes → Query
unfolding add_parts
parse_query text = add_parts (split b'&' text) []

-- The value of a parameter that must be there and must not be empty.
unfoldable pub present : Option Bytes → Result Bytes
present none = throw 400 invalid_parameter
present (some []) = throw 400 invalid_parameter
present (some (c ∷ cs)) = ok (c ∷ cs)

unfoldable pub required : Query → Bytes → Result Bytes
unfolding present
required query name = present (lookup name query)

abbrev pub is_session_byte : ℕ → Bool
is_session_byte c =
    within b'a' b'z' c || within b'A' b'Z' c || within b'0' b'9' c || c == b'-' || c == b'_'

unfoldable pub is_safe_session_id : Bytes → Bool
is_safe_session_id value = not (is_empty value) && all is_session_byte value

-- The text is a long long from its first byte to its last.
whole : Bytes → Option (ℤ × ℕ) → Result ℤ
whole value none = throw 400 invalid_parameter
whole value (some (result, used)) =
    if used == length value then ok result else throw 400 invalid_parameter

unfoldable pub parse_long : Bytes → Result ℤ
unfolding whole
parse_long value = whole value (stoll value)

-- INT32_MIN and INT32_MAX
abbrev pub int32_min : ℤ
int32_min = negsuc (2 ^ 31 - 1)

abbrev pub int32_max : ℤ
int32_max = pos (2 ^ 31 - 1)

unfoldable pub parse_int : Bytes → Result ℤ
unfolding parse_long
parse_int value = do
  result ← parse_long value
  guard (not (ltb_ℤ result int32_min || ltb_ℤ int32_max result)) 400 invalid_parameter
  ok result
