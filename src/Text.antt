-- ===== src/Text.antt =====
-- std::string as the list of its bytes, and the parts of the standard library that the source
-- uses on it: comparison, find, std::to_string, std::stoll, trim's character class.
pub mod Hex
pub mod Decimal
pub mod Stoll
pub mod Separated
use Prim.Native.Char.{code}
use Prim.Native.String.{String}
use mathlib.Core.Logic.{inl, inr}
use hik_hcnet_http_bridge.Common.{
  ℕ, suc, ◌+◌, ◌≡◌, ◌↔◌, ◌≢◌, refl, Bool, true, false, ◌&&◌, ◌||◌, List, [], ◌∷◌, ◌++◌, Option,
  none, some, arith, leb, ◌==◌, if◌then◌else◌, Bool-cases, length,
}

abbrev pub Bytes : Type 0
Bytes = List ℕ

-- The bytes of an ASCII literal.
abbrev pub codes : String → Bytes
codes String.[] = []
codes (String.◌∷◌ c s) = code c ∷ codes s

abbrev pub within : ℕ → ℕ → ℕ → Bool
within lo hi c = leb lo c && leb c hi

abbrev pub is_digit : ℕ → Bool
is_digit = within b'0' b'9'

-- std::isspace in the C locale
abbrev pub is_space : ℕ → Bool
is_space c = c == 32 || within 9 13 c

-- operator== of two strings
unfoldable pub equal : Bytes → Bytes → Bool
equal (c ∷ cs) (d ∷ ds) = c == d && equal cs ds
equal [] (d ∷ ds) = false
equal (c ∷ cs) [] = false
equal [] [] = true

pub equal_refl : (xs : Bytes) → equal xs xs ≡ true
unfolding equal
equal_refl [] = refl
equal_refl (x ∷ xs) = ground (arith, equal_refl xs)

pub eq_of_equal : (xs ys : Bytes) → equal xs ys ≡ true → xs ≡ ys
unfolding equal
eq_of_equal [] [] h = refl
eq_of_equal [] (y ∷ ys) h = cc
eq_of_equal (x ∷ xs) [] h = cc
eq_of_equal (x ∷ xs) (y ∷ ys) h = ground (arith, eq_of_equal xs ys)

pub equal_iff : (xs ys : Bytes) → (equal xs ys ≡ true) ↔ (xs ≡ ys)
equal_iff xs ys = (eq_of_equal xs ys, λ e. subst_equal e)
  where
    subst_equal : xs ≡ ys → equal xs ys ≡ true
    subst_equal e = rw e (equal_refl ys)

pub equal_ne : (xs ys : Bytes) → xs ≢ ys → equal xs ys ≡ false
equal_ne xs ys h = elim (Bool-cases (equal xs ys)) [
  | inl e ↦ absurd (h (eq_of_equal xs ys e))
  | inr e ↦ e
]

-- No byte of the text is `c`.
abbrev pub Free : ℕ → Bytes → Type 0
Free c [] = Unit {0}
Free c (x ∷ xs) = (x ≢ c) × Free c xs

pub Free-append : (c : ℕ) (xs ys : Bytes) → Free c xs → Free c ys → Free c (xs ++ ys)
Free-append c [] ys h k = k
Free-append c (x ∷ xs) ys h k = (h.0, Free-append c xs ys h.1 k)
