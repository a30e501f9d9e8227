-- ===== src/Text/Hex.antt =====
-- Bytes in hexadecimal: std::hex with std::setw(2) and std::setfill('0').
use hik_hcnet_http_bridge.Common.{
  ℕ, zero, suc, ◌+◌, ◌-◌, ◌*◌, ◌/◌, ◌%◌, ◌<◌, ◌≡◌, ◌≢◌, ◌∙◌, refl, Bool, true, false, ◌||◌, [], ◌∷◌,
  ◌++◌, arith, ltb, if◌then◌else◌, Bool-cases, inl, inr,
}
use hik_hcnet_http_bridge.Text.{Bytes, is_digit, within, Free, Free-append}

-- std::isxdigit
abbrev pub is_xdigit : ℕ → Bool
is_xdigit c = is_digit c || within b'a' b'f' c || within b'A' b'F' c

-- The digit that std::strtol reads in base 16.
abbrev pub xdigit_value : ℕ → ℕ
xdigit_value c =
    if is_digit c then c - b'0' else if within b'a' b'f' c then c - b'a' + 10 else c - b'A' + 10

-- A digit below sixteen, in lower case: 87 is 'a' less ten.
unfoldable pub lower_hex : ℕ → ℕ
lower_hex d = if ltb d 10 then b'0' + d else 87 + d

-- A byte in two digits.
abbrev pub hex_byte : ℕ → Bytes
hex_byte n = lower_hex (n / 16) ∷ lower_hex (n % 16) ∷ []

pub lower_hex_digit : (d : ℕ) → d < 16 → is_xdigit (lower_hex d) ≡ true
unfolding lower_hex
lower_hex_digit d h = ground arith

pub xdigit_value-lower_hex : (d : ℕ) → d < 16 → xdigit_value (lower_hex d) ≡ d
unfolding lower_hex
xdigit_value-lower_hex d h = ground arith

-- The digits that std::hex prints of a number, with fuel above it.
unfoldable pub hex_digits : ℕ → ℕ → Bytes
hex_digits zero n = []
hex_digits (suc f) n =
    let rest = hex_digits f (n / 16) ++ lower_hex (n % 16) ∷ [] in
    if ltb n 16 then lower_hex n ∷ [] else rest

unfoldable pub hex : ℕ → Bytes
unfolding hex_digits
hex n = hex_digits (suc n) n

-- The number that digits stand for, after those read so far.
unfoldable pub hex_value_from : ℕ → Bytes → ℕ
hex_value_from acc [] = acc
hex_value_from acc (c ∷ cs) = hex_value_from (acc * 16 + xdigit_value c) cs

hex_value_from-concat :
    (acc : ℕ) (xs : Bytes) (d : ℕ)
    → hex_value_from acc (xs ++ d ∷ []) ≡ hex_value_from acc xs * 16 + xdigit_value d
unfolding hex_value_from
hex_value_from-concat acc [] d = refl
hex_value_from-concat acc (x ∷ xs) d = hex_value_from-concat (acc * 16 + xdigit_value x) xs d

hex_value_from-hex_digits : (f n : ℕ) → n < f → hex_value_from 0 (hex_digits f n) ≡ n
unfolding hex_digits
hex_value_from-hex_digits zero n h = elim h [ ]
hex_value_from-hex_digits (suc f) n h = elim (Bool-cases (ltb n 16)) [
  | inl small ↦ rw small (
      hex_value_from-concat 0 [] (lower_hex n)
      ∙ omega (arith, hex_nil, xdigit_value-lower_hex n (ground arith)))
  | inr large ↦ rw large (
      hex_value_from-concat 0 (hex_digits f (n / 16)) (lower_hex (n % 16))
      ∙ omega (
        arith,
        hex_value_from-hex_digits f (n / 16) (ground arith),
        xdigit_value-lower_hex (n % 16) (ground arith),
      ))
]
  where
    hex_nil : hex_value_from 0 [] ≡ 0
    hex_nil = unfold hex_value_from in refl

pub hex_value_from-hex : (n : ℕ) → hex_value_from 0 (hex n) ≡ n
unfolding hex
hex_value_from-hex n = hex_value_from-hex_digits (suc n) n (omega arith)

hex_digits-Free : (c f n : ℕ) → is_xdigit c ≡ false → Free c (hex_digits f n)
unfolding hex_digits
hex_digits-Free c zero n h = tt
hex_digits-Free c (suc f) n h = elim (Bool-cases (ltb n 16)) [
  | inl small ↦ rw small (other n (ground arith), tt)
  | inr large ↦ rw large (
      Free-append c (hex_digits f (n / 16)) _ (hex_digits-Free c f (n / 16) h)
        (other (n % 16) (ground arith), tt))
]
  where
    other : (d : ℕ) → d < 16 → lower_hex d ≢ c
    other d small e = cc (lower_hex_digit d small, h, e)

pub hex-Free : (c n : ℕ) → is_xdigit c ≡ false → Free c (hex n)
unfolding hex
hex-Free c n h = hex_digits-Free c (suc n) n h
