-- ===== src/Text/Stoll.antt =====
-- std::stoll in base 10: white space, an optional sign, digits; it throws where there is no digit
-- and where the number is no long long (64 bits). Also the count of bytes that it used.
use hik_hcnet_http_bridge.Common.{
  ℕ, zero, suc, ◌+◌, ◌^◌, ◌<◌, ◌≡◌, refl, ap, ◌∙◌, Bool, true, false, [], ◌∷◌, Option, none, some,
  arith, ltb, leb, ◌==◌, if◌then◌else◌, ℤ, pos, negsuc, length, drop, is_empty, lt→ltb, le→leb,
}
use hik_hcnet_http_bridge.Text.{Bytes, is_digit, is_space}
use hik_hcnet_http_bridge.Text.Decimal.{
  to_string_ℤ, value_from, value_from-to_string, Digits, to_string-Digits, to_string_first,
}

leading_spaces : Bytes → ℕ
leading_spaces [] = 0
leading_spaces (c ∷ cs) = if is_space c then suc (leading_spaces cs) else 0

digit_prefix : Bytes → Bytes
digit_prefix [] = []
digit_prefix (c ∷ cs) = if is_digit c then c ∷ digit_prefix cs else []

-- Is there a sign, and is it the minus?
sign : Bytes → ℕ × Bool
sign [] = (0, false)
sign (c ∷ cs) = if c == b'-' then (1, true) else if c == b'+' then (1, false) else (0, false)

negate : ℕ → ℤ
negate zero = pos 0
negate (suc n) = negsuc n

to_long : Bool → ℕ → Option ℤ
to_long false m = if ltb m (2 ^ 63) then some (pos m) else none
to_long true m = if leb m (2 ^ 63) then some (negate m) else none

read_magnitude : ℕ → Bool → Bytes → Option (ℤ × ℕ)
read_magnitude before negative ds =
    if is_empty ds then none else elim (to_long negative (value_from 0 ds)) [
      | none ↦ none
      | some v ↦ some (v, before + length ds)
    ]

read_long : Bytes → Option (ℤ × ℕ)
read_long s =
    let spaces = leading_spaces s in
    let unspaced = drop spaces s in
    let (signs, negative) = sign unspaced in
    read_magnitude (spaces + signs) negative (digit_prefix (drop signs unspaced))

unfoldable pub stoll : Bytes → Option (ℤ × ℕ)
unfolding read_long leading_spaces digit_prefix sign negate to_long read_magnitude
stoll = read_long

stoll-read_long : (s : Bytes) → stoll s ≡ read_long s
unfolding stoll
stoll-read_long s = refl

digit_prefix_all : (xs : Bytes) → Digits xs → digit_prefix xs ≡ xs
unfolding digit_prefix
digit_prefix_all [] d = refl
digit_prefix_all (x ∷ xs) d = rw d.0 (ap (◌∷◌ x) (digit_prefix_all xs d.1))

-- The range of a long long.
abbrev pub IsLong : ℤ → Type 0
IsLong (pos n) = n < 2 ^ 63
IsLong (negsuc n) = n < 2 ^ 63

leading_spaces_digit : (d : ℕ) (xs : Bytes) → is_digit d ≡ true → leading_spaces (d ∷ xs) ≡ 0
unfolding leading_spaces
leading_spaces_digit d xs h = let not_space : is_space d ≡ false = ground arith in rw not_space

sign_digit : (d : ℕ) (xs : Bytes) → is_digit d ≡ true → sign (d ∷ xs) ≡ (0, false)
unfolding sign
sign_digit d xs h =
    let not_minus : (d == b'-') ≡ false = ground arith in
    let not_plus : (d == b'+') ≡ false = ground arith in rw not_minus (rw not_plus)

read_magnitude_pos :
    (d : ℕ) (rest : Bytes)
    → value_from 0 (d ∷ rest) < 2 ^ 63
    → read_magnitude 0 false (d ∷ rest) ≡ some (pos (value_from 0 (d ∷ rest)), length (d ∷ rest))
unfolding read_magnitude to_long
read_magnitude_pos d rest small = let fits = lt→ltb _ _ small in rw fits (ground arith)

stoll-Digits :
    (d : ℕ) (rest : Bytes)
    → Digits (d ∷ rest)
    → value_from 0 (d ∷ rest) < 2 ^ 63
    → stoll (d ∷ rest) ≡ some (pos (value_from 0 (d ∷ rest)), length (d ∷ rest))
stoll-Digits d rest h small =
    stoll-read_long (d ∷ rest)
    ∙ unfold read_long in
      rw (leading_spaces_digit d rest h.0) (
        rw (sign_digit d rest h.0)
          (rw (digit_prefix_all (d ∷ rest) h) (read_magnitude_pos d rest small)))

stoll_negative :
    (d : ℕ) (rest : Bytes) (n : ℕ)
    → Digits (d ∷ rest)
    → value_from 0 (d ∷ rest) ≡ suc n
    → n < 2 ^ 63
    → stoll (b'-' ∷ d ∷ rest) ≡ some (negsuc n, suc (length (d ∷ rest)))
unfolding stoll
stoll_negative d rest n h v small =
    let digit = h.0 in
    let whole = digit_prefix_all rest h.1 in
    let fits : leb (suc n) (2 ^ 63) ≡ true = le→leb _ _ (omega arith) in
    rw digit (rw whole (rw v (rw fits (ground arith))))

-- It reads back what std::to_string wrote, and uses all of it.
pub stoll-to_string_ℤ :
    (z : ℤ) → IsLong z → stoll (to_string_ℤ z) ≡ some (z, length (to_string_ℤ z))
unfolding to_string_ℤ
stoll-to_string_ℤ (pos n) h =
    let (d, rest, e) = to_string_first n in
    let v : value_from 0 (d ∷ rest) ≡ n = rw e at (value_from-to_string n) in
    rw e (stoll-Digits d rest (rw e at (to_string-Digits n)) (omega (arith, v)) ∙ rw v)
stoll-to_string_ℤ (negsuc n) h =
    let (d, rest, e) = to_string_first (suc n) in
    let v : value_from 0 (d ∷ rest) ≡ suc n = rw e at (value_from-to_string (suc n)) in
    rw e (stoll_negative d rest n (rw e at (to_string-Digits (suc n))) v h)
