-- ===== src/Dict.antt =====
-- std::map with string keys, as an association list with one entry for each key.
use hik_hcnet_http_bridge.Common.{
  ◌≡◌, refl, Bool, List, [], ◌∷◌, Option, none, some, arith, if◌then◌else◌,
}
use hik_hcnet_http_bridge.Text.{Bytes, equal, equal_iff}

abbrev pub Dict {ℓ} : Type ℓ → Type ℓ
Dict V = List (Bytes × V)

module _ {ℓ} {V : Type ℓ} where
  -- find, at
  unfoldable pub lookup : Bytes → Dict V → Option V
  lookup name ((found, value) ∷ rest) = if equal found name then some value else lookup name rest
  lookup name [] = none

  -- operator[] = v
  unfoldable pub insert : Bytes → V → Dict V → Dict V
  insert name value ((found, old) ∷ rest) =
      if equal found name then (name, value) ∷ rest else (found, old) ∷ insert name value rest
  insert name value [] = (name, value) ∷ []

  -- erase(find(k))
  unfoldable pub erase : Bytes → Dict V → Dict V
  erase k [] = []
  erase k ((j, w) ∷ m) = if equal j k then erase k m else (j, w) ∷ erase k m

  -- The loop that erases what fails a test on its value.
  unfoldable pub retain : (V → Bool) → Dict V → Dict V
  retain p [] = []
  retain p ((j, w) ∷ m) = if p w then (j, w) ∷ retain p m else retain p m

  -- An assignment is seen under its own name and under no other.
  pub lookup-insert :
      (name other : Bytes) (value : V) (items : Dict V)
      → lookup other (insert name value items)
        ≡ (if equal name other then some value else lookup other items)
  unfolding insert lookup
  lookup-insert name other value ((found, old) ∷ rest) = ground (
    arith,
    lookup-insert name other value rest,
    equal_iff found name,
    equal_iff found other,
    equal_iff name other,
  )
  lookup-insert name other value [] = refl

  pub lookup-erase :
      (k j : Bytes) (m : Dict V) → lookup j (erase k m) ≡ (if equal k j then none else lookup j m)
  unfolding lookup erase
  lookup-erase k j [] = ground arith
  lookup-erase k j ((i, w) ∷ m) =
      ground (arith, equal_iff k j, equal_iff i k, equal_iff i j, lookup-erase k j m)

  -- No key stands twice.
  abbrev pub Unique : Dict V → Type ℓ
  Unique [] = Unit
  Unique ((k, v) ∷ m) = (lookup k m ≡ none) × Unique m

  pub insert-Unique : (k : Bytes) (v : V) (m : Dict V) → Unique m → Unique (insert k v m)
  unfolding insert lookup
  insert-Unique k v [] u = (refl, tt)
  insert-Unique k v ((j, w) ∷ m) u =
      ground (arith, equal_iff j k, lookup-insert k j v m, insert-Unique k v m u.1, equal_iff k j)

  pub lookup-retain-none :
      (p : V → Bool) (k : Bytes) (m : Dict V) → lookup k m ≡ none → lookup k (retain p m) ≡ none
  unfolding lookup retain
  lookup-retain-none p k [] h = refl
  lookup-retain-none p k ((j, w) ∷ m) h = ground (arith, lookup-retain-none p k m)

  pub retain-Unique : (p : V → Bool) (m : Dict V) → Unique m → Unique (retain p m)
  unfolding retain
  retain-Unique p [] u = tt
  retain-Unique p ((j, w) ∷ m) u =
      ground (arith, lookup-retain-none p j m u.0, retain-Unique p m u.1)

  -- What a test on the values leaves of a lookup.
  abbrev pub filter_value : (V → Bool) → Option V → Option V
  filter_value p none = none
  filter_value p (some v) = if p v then some v else none

  pub lookup-retain :
      (p : V → Bool) (k : Bytes) (m : Dict V)
      → Unique m
      → lookup k (retain p m) ≡ filter_value p (lookup k m)
  unfolding lookup retain
  lookup-retain p k [] u = refl
  lookup-retain p k ((j, w) ∷ m) u =
      ground (arith, equal_iff j k, lookup-retain p k m u.1, lookup-retain-none p j m u.0)
