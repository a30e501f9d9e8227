-- ===== src/Text/Decimal.antt =====
-- std::to_string of a number, and the digits that std::stoll reads back.
use hik_hcnet_http_bridge.Common.{
  ℕ, zero, suc, ◌+◌, ◌-◌, ◌*◌, ◌/◌, ◌%◌, ◌<◌, ◌≡◌, ◌≢◌, refl, sym, ap, ◌∙◌, true, false, [], ◌∷◌,
  ◌++◌, arith, ltb, if◌then◌else◌, ℤ, pos, negsuc, Bool-cases, inl, inr, All, All-append, subst,
}
use hik_hcnet_http_bridge.Text.{Bytes, is_digit, Free}

-- The decimal digits, with fuel above the number.
unfoldable pub digits : ℕ → ℕ → Bytes
digits zero n = []
digits (suc f) n =
    let rest = digits f (n / 10) ++ (b'0' + n % 10) ∷ [] in
    if ltb n 10 then (b'0' + n) ∷ [] else rest

unfoldable pub to_string : ℕ → Bytes
unfolding digits
to_string n = digits (suc n) n

unfoldable pub to_string_ℤ : ℤ → Bytes
unfolding to_string
to_string_ℤ (pos n) = to_string n
to_string_ℤ (negsuc n) = b'-' ∷ to_string (suc n)

-- The number that digits stand for, after those read so far.
unfoldable pub value_from : ℕ → Bytes → ℕ
value_from acc [] = acc
value_from acc (c ∷ cs) = value_from (acc * 10 + (c - b'0')) cs

value_from-concat :
    (acc : ℕ) (xs : Bytes) (d : ℕ)
    → value_from acc (xs ++ d ∷ []) ≡ value_from acc xs * 10 + (d - b'0')
unfolding value_from
value_from-concat acc [] d = refl
value_from-concat acc (x ∷ xs) d = value_from-concat (acc * 10 + (x - b'0')) xs d

value_from-digits : (f n : ℕ) → n < f → value_from 0 (digits f n) ≡ n
unfolding digits
value_from-digits zero n h = elim h [ ]
value_from-digits (suc f) n h = elim (Bool-cases (ltb n 10)) [
  | inl small ↦ rw small (value_from-concat 0 [] (b'0' + n) ∙ omega (arith, value_from_nil 0))
  | inr large ↦ rw large (
      value_from-concat 0 (digits f (n / 10)) _
      ∙ omega (arith, value_from-digits f (n / 10) (ground arith)))
]
  where
    value_from_nil : (a : ℕ) → value_from a [] ≡ a
    value_from_nil a = unfold value_from in refl

pub value_from-to_string : (n : ℕ) → value_from 0 (to_string n) ≡ n
unfolding to_string
value_from-to_string n = value_from-digits (suc n) n (omega arith)

pub to_string-injective : (m n : ℕ) → to_string m ≡ to_string n → m ≡ n
to_string-injective m n e =
    sym (value_from-to_string m) ∙ ap (value_from 0) e ∙ value_from-to_string n

abbrev pub Digits : Bytes → Type 0
Digits = All (λ c. is_digit c ≡ true)

digits-Digits : (f n : ℕ) → Digits (digits f n)
unfolding digits
digits-Digits zero n = tt
digits-Digits (suc f) n = elim (Bool-cases (ltb n 10)) [
  | inl small ↦ rw small (ground arith, tt)
  | inr large ↦
      rw large (All-append _ (digits f (n / 10)) _ (digits-Digits f (n / 10)) (ground arith, tt))
]

pub to_string-Digits : (n : ℕ) → Digits (to_string n)
unfolding to_string
to_string-Digits n = digits-Digits (suc n) n

digits_first : (f n : ℕ) → n < f → (d : ℕ) × (rest : Bytes) × (digits f n ≡ d ∷ rest)
unfolding digits
digits_first zero n h = elim h [ ]
digits_first (suc f) n h = elim (Bool-cases (ltb n 10)) [
  | inl small ↦ (b'0' + n, [], rw small)
  | inr large ↦
      let (d, rest, e) = digits_first f (n / 10) (ground arith) in
      (d, rest ++ (b'0' + n % 10) ∷ [], rw (large, e))
]

pub to_string_first : (n : ℕ) → (d : ℕ) × (rest : Bytes) × (to_string n ≡ d ∷ rest)
unfolding to_string
to_string_first n = digits_first (suc n) n (omega arith)

pub Digits-Free : (c : ℕ) (xs : Bytes) → is_digit c ≡ false → Digits xs → Free c xs
Digits-Free c [] h d = tt
Digits-Free c (x ∷ xs) h d = ((λ e. cc), Digits-Free c xs h d.1)

pub to_string_ℤ-Free : (c : ℕ) (z : ℤ) → is_digit c ≡ false → c ≢ b'-' → Free c (to_string_ℤ z)
unfolding to_string_ℤ
to_string_ℤ-Free c (pos n) h ne = Digits-Free c _ h (to_string-Digits n)
to_string_ℤ-Free c (negsuc n) h ne =
    ((λ e. ne (sym e)), Digits-Free c _ h (to_string-Digits (suc n)))

minus_not_digits : (n : ℕ) (xs : Bytes) → to_string n ≢ b'-' ∷ xs
minus_not_digits n xs e = cc ((subst Digits e (to_string-Digits n)).0)

pub to_string_ℤ-injective : (a b : ℤ) → to_string_ℤ a ≡ to_string_ℤ b → a ≡ b
unfolding to_string_ℤ
to_string_ℤ-injective (pos m) (pos n) e = ap pos (to_string-injective m n e)
to_string_ℤ-injective (pos m) (negsuc n) e = absurd (minus_not_digits m _ e)
to_string_ℤ-injective (negsuc m) (pos n) e = absurd (minus_not_digits n _ (sym e))
to_string_ℤ-injective (negsuc m) (negsuc n) e =
    let same : suc m ≡ suc n = to_string-injective (suc m) (suc n) (cc) in ap negsuc (omega arith)

pub to_string_ℤ-ne-nil : (z : ℤ) → to_string_ℤ z ≢ []
unfolding to_string_ℤ
to_string_ℤ-ne-nil (pos n) e = let (d, rest, p) = to_string_first n in cc
to_string_ℤ-ne-nil (negsuc n) e = cc
