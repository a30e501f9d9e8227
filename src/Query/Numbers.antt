-- ===== src/Query/Numbers.antt =====
-- Numbers in a query: what parse_long and parse_int accept.
use hik_hcnet_http_bridge.Common.{◌≡◌, arith, ℤ, pos, negsuc, ◌≤ℤ◌}
use hik_hcnet_http_bridge.Text.{Bytes}
use hik_hcnet_http_bridge.Text.Decimal.{to_string_ℤ}
use hik_hcnet_http_bridge.Text.Stoll.{stoll-to_string_ℤ, IsLong}
use hik_hcnet_http_bridge.Error.{Fault, ok, err, bridge_error, invalid_parameter}
use hik_hcnet_http_bridge.Query.{parse_long, parse_int, int32_min, int32_max}

-- parse_long reads back every long long that std::to_string wrote.
pub parse_long-to_string_ℤ : (z : ℤ) → IsLong z → parse_long (to_string_ℤ z) ≡ ok z
unfolding parse_long
parse_long-to_string_ℤ z h = rw (stoll-to_string_ℤ z h) (ground arith)

IsLong-of_int : (z : ℤ) → int32_min ≤ℤ z → z ≤ℤ int32_max → IsLong z
IsLong-of_int (pos n) low high = omega arith
IsLong-of_int (negsuc n) low high = omega arith

-- The exception is 400 INVALID_PARAMETER.
abbrev pub Is400 : Fault → Type 0
Is400 e = e ≡ bridge_error 400 invalid_parameter

pub parse_long-400 : (value : Bytes) (e : Fault) → parse_long value ≡ err e → Is400 e
unfolding parse_long
parse_long-400 value e h = ground arith

pub parse_int-400 : (value : Bytes) (e : Fault) → parse_int value ≡ err e → Is400 e
unfolding parse_int
parse_int-400 value e h = ground arith

-- parse_int lets no number through that does not fit an int of 32 bits.
pub parse_int_range :
    (value : Bytes) {z : ℤ} → parse_int value ≡ ok z → (int32_min ≤ℤ z) × (z ≤ℤ int32_max)
unfolding parse_int
parse_int_range value h = ground arith

-- And it reads back every int that std::to_string wrote.
pub parse_int-to_string_ℤ :
    (z : ℤ) → int32_min ≤ℤ z → z ≤ℤ int32_max → parse_int (to_string_ℤ z) ≡ ok z
unfolding parse_int
parse_int-to_string_ℤ z low high =
    rw (parse_long-to_string_ℤ z (IsLong-of_int z low high)) (ground arith)
