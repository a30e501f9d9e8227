-- ===== src/Upgrade/Files/Copies.antt =====
-- A copy that was compared is a copy.
use hik_hcnet_http_bridge.Common.{
  ℕ, zero, suc, ◌-◌, ◌<◌, ◌≤◌, ◌≡◌, ◌↔◌, refl, ap, sym, ◌∙◌, subst, true, false, not, [], ◌∷◌, ◌++◌,
  take, drop, length, ltb, ◌==◌, if◌then◌else◌, arith, Bool-cases, inl, inr,
}
use hik_hcnet_http_bridge.Text.{Bytes, equal, equal_refl, eq_of_equal}
use hik_hcnet_http_bridge.Upgrade.Files.{buffer_size, equal_from, equal_file}

take-drop : (n : ℕ) (xs : Bytes) → take n xs ++ drop n xs ≡ xs
take-drop zero xs = refl
take-drop (suc n) [] = refl
take-drop (suc n) (x ∷ xs) = ap (◌∷◌ x) (take-drop n xs)

take_all : (n : ℕ) (xs : Bytes) → length (take n xs) < n → take n xs ≡ xs
take_all zero xs h = absurd (omega arith)
take_all (suc n) [] h = refl
take_all (suc n) (x ∷ xs) h = ap (◌∷◌ x) (take_all n xs (omega arith))

take-length : (xs : Bytes) → take (length xs) xs ≡ xs
take-length [] = refl
take-length (x ∷ xs) = ap (◌∷◌ x) (take-length xs)

length-take-le : (n : ℕ) (xs : Bytes) → length (take n xs) ≤ n
length-take-le zero xs = omega arith
length-take-le (suc n) [] = omega arith
length-take-le (suc n) (x ∷ xs) = omega (arith, length-take-le n xs)

length-take-le_length : (n : ℕ) (xs : Bytes) → length (take n xs) ≤ length xs
length-take-le_length zero xs = omega arith
length-take-le_length (suc n) [] = omega arith
length-take-le_length (suc n) (x ∷ xs) = omega (arith, length-take-le_length n xs)

take_whole_part : (n : ℕ) (xs : Bytes) → take (length (take n xs)) xs ≡ take n xs
take_whole_part zero xs = refl
take_whole_part (suc n) [] = refl
take_whole_part (suc n) (x ∷ xs) = ap (◌∷◌ x) (take_whole_part n xs)

length-drop : (n : ℕ) (xs : Bytes) → length (drop n xs) ≡ length xs - n
length-drop zero xs = omega arith
length-drop (suc n) [] = omega arith
length-drop (suc n) (x ∷ xs) = omega (arith, length-drop n xs)

module _ (size : ℕ) where
  equal_from_sound :
      (fuel : ℕ) (x y : Bytes) → length x ≡ length y → equal_from size fuel x y ≡ true → x ≡ y
  unfolding equal_from
  equal_from_sound zero x y same e = cc
  equal_from_sound (suc fuel) x y same e =
      elim (Bool-cases (equal (take size x) (take (length (take size x)) y))) [
        | inr p ↦ ground (arith)
        | inl p ↦ elim (Bool-cases (ltb (length (take size x)) size)) [
          | inl q ↦ last (eq_of_equal _ _ p) (take_all size x (ground arith))
          | inr q ↦ more (eq_of_equal _ _ p) (ground (arith, length-take-le size x)) (
              equal_from_sound fuel (drop size x) (drop size y)
                (omega (arith, length-drop size x, length-drop size y)) (ground arith))
        ]
      ]
    where
      last : take size x ≡ take (length (take size x)) y → take size x ≡ x → x ≡ y
      last part full =
          subst (λ t. t ≡ take (length t) y) full part
          ∙ ap (λ (n : ℕ). take n y) same
          ∙ take-length y

      more :
          take size x ≡ take (length (take size x)) y
          → length (take size x) ≡ size
          → drop size x ≡ drop size y
          → x ≡ y
      more part full rest =
          sym (take-drop size x)
          ∙ ap (λ t. t ++ drop size x) (part ∙ ap (λ (n : ℕ). take n y) full)
          ∙ ap (λ t. take size y ++ t) rest
          ∙ take-drop size y

  equal_from_refl :
      (fuel : ℕ) (x : Bytes) → 0 < size → length x < fuel → equal_from size fuel x x ≡ true
  unfolding equal_from
  equal_from_refl zero x some_size enough = absurd (omega arith)
  equal_from_refl (suc fuel) x some_size enough =
      elim (Bool-cases (ltb (length (take size x)) size)) [
        | inl q ↦ simp (same_part, q) refl
        | inr q ↦
            simp (same_part, q)
              (equal_from_refl fuel (drop size x) some_size (
                ground
                  (arith, length-drop size x, length-take-le size x, length-take-le_length size x)))
      ]
    where
      same_part : equal (take size x) (take (length (take size x)) x) ≡ true
      same_part = rw (take_whole_part size x) (equal_refl (take size x))

two_files :
    (size : ℕ) (a b : Bytes)
    → (if not (length a == length b) then false else equal_from size (suc (length a)) a b) ≡ true
    → a ≡ b
two_files size a b e = ground (arith, equal_from_sound size (suc (length a)) a b)

one_file :
    (size : ℕ) (a : Bytes)
    → 0 < size
    → (if not (length a == length a) then false else equal_from size (suc (length a)) a a) ≡ true
one_file size a some_size =
    let same : length a == length a ≡ true = ground arith in
    simp same (equal_from_refl size (suc (length a)) a some_size (omega arith))

-- Two files are found equal exactly if they have the same bytes, whatever their length.
pub equal_file-eq : (a b : Bytes) → (equal_file a b ≡ true) ↔ (a ≡ b)
unfolding equal_file
equal_file-eq a b = (found, kept)
  where
    found : equal_file a b ≡ true → a ≡ b
    found e = two_files buffer_size a b e

    kept : a ≡ b → equal_file a b ≡ true
    kept e = subst (λ t. equal_file a t ≡ true) e (one_file buffer_size a (omega arith))
