-- ===== src/Text/Separated.antt =====
-- Texts joined by a separator, and how find and substr take them apart.
use hik_hcnet_http_bridge.Common.{
  ℕ, ◌≡◌, refl, sym, List, [], ◌∷◌, ◌++◌, arith, ◌==◌, if◌then◌else◌, Option, none, some,
}
use hik_hcnet_http_bridge.Text.{Bytes, Free}

-- substr(0, find(c)) and, where the byte is found, substr(find(c) + 1)
unfoldable pub break_at : ℕ → Bytes → Bytes × Option Bytes
break_at c [] = ([], none)
break_at c (x ∷ xs) =
    let (before, after) = break_at c xs in if x == c then ([], some xs) else (x ∷ before, after)

-- The parts between the separators: one more than there are separators.
unfoldable pub split : ℕ → Bytes → List Bytes
split c [] = [] ∷ []
split c (x ∷ xs) = if x == c then [] ∷ split c xs else onto_first x (split c xs)
  where
    onto_first : ℕ → List Bytes → List Bytes
    onto_first y [] = (y ∷ []) ∷ []
    onto_first y (p ∷ ps) = (y ∷ p) ∷ ps

pub break_at_joined :
    (c : ℕ) (xs ys : Bytes) → Free c xs → break_at c (xs ++ c ∷ ys) ≡ (xs, some ys)
unfolding break_at
break_at_joined c [] ys f = ground arith
break_at_joined c (x ∷ xs) ys f = ground (arith, break_at_joined c xs ys f.1)

pub break_at-Free : (c : ℕ) (xs : Bytes) → Free c xs → break_at c xs ≡ (xs, none)
unfolding break_at
break_at-Free c [] f = refl
break_at-Free c (x ∷ xs) f = ground (arith, break_at-Free c xs f.1)

pub split-Free : (c : ℕ) (xs : Bytes) → Free c xs → split c xs ≡ xs ∷ []
unfolding split
split-Free c [] f = refl
split-Free c (x ∷ xs) f = ground (arith, split-Free c xs f.1)

pub split_joined : (c : ℕ) (xs ys : Bytes) → Free c xs → split c (xs ++ c ∷ ys) ≡ xs ∷ split c ys
unfolding split
split_joined c [] ys f = ground arith
split_joined c (x ∷ xs) ys f = ground (arith, split_joined c xs ys f.1)

Free-no_tail : (c : ℕ) (xs ys : Bytes) → Free c (xs ++ c ∷ ys) → ⊥
Free-no_tail c [] ys f = f.0 refl
Free-no_tail c (x ∷ xs) ys f = Free-no_tail c xs ys f.1

-- The last separator splits a text in one way.
pub split_last :
    (c : ℕ) (xs ys : Bytes) {d e : Bytes}
    → Free c d
    → Free c e
    → xs ++ c ∷ d ≡ ys ++ c ∷ e
    → (xs ≡ ys) × (d ≡ e)
split_last c [] [] f g h = (refl, cc)
split_last c [] (y ∷ ys) {d} {e} f g h = absurd (Free-no_tail c ys e (free_of (cc)))
  where
    free_of : {t : Bytes} → d ≡ t → Free c t
    free_of p = rw (sym p) f
split_last c (x ∷ xs) [] {d} {e} f g h = absurd (Free-no_tail c xs d (free_of (cc)))
  where
    free_of : {t : Bytes} → e ≡ t → Free c t
    free_of p = rw (sym p) g
split_last c (x ∷ xs) (y ∷ ys) f g h = let (same, last) = split_last c xs ys f g (cc) in (cc, last)
