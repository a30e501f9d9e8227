-- ===== src/Mp4/Search.antt =====
-- The search for an atom finds it exactly where it stands first.
use hik_hcnet_http_bridge.Common.{
  ℕ, zero, suc, ◌≤◌, ◌<◌, ◌≡◌, refl, true, false, [], ◌∷◌, ◌++◌, arith, length, drop, Bool-cases,
  inl, inr,
}
use hik_hcnet_http_bridge.Text.{Bytes}
use hik_hcnet_http_bridge.Mp4.{starts_with, find_atom}

pub starts_with_append : (atom rest : Bytes) → starts_with atom (atom ++ rest) ≡ true
unfolding starts_with
starts_with_append [] [] = refl
starts_with_append [] (x ∷ xs) = refl
starts_with_append (c ∷ cs) rest = ground (arith, starts_with_append cs rest)

find_atom-le : (atom bytes : Bytes) → find_atom atom bytes ≤ length bytes
unfolding find_atom
find_atom-le atom [] = omega arith
find_atom-le atom (x ∷ xs) = ground (arith, find_atom-le atom xs)

-- Found: the atom stands at the place that find_atom returns, and at none before it. Not found: it
-- returns the size, and the atom stands nowhere in the bytes.
pub find_atom_lem :
    (atom bytes : Bytes) (i : ℕ)
    → i < length bytes
    → (i < find_atom atom bytes → starts_with atom (drop i bytes) ≡ false)
      × (i ≡ find_atom atom bytes → starts_with atom (drop i bytes) ≡ true)
unfolding find_atom
find_atom_lem atom [] i h = absurd (omega arith)
find_atom_lem atom (x ∷ xs) zero h = elim (Bool-cases (starts_with atom (x ∷ xs))) [
  | inl e ↦ ground arith
  | inr e ↦ ground arith
]
find_atom_lem atom (x ∷ xs) (suc i) h = ground (arith, find_atom_lem atom xs i (omega arith))
