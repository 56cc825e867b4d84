-- ===== src/Common/Maps.antt =====
-- `std::map` with numeric keys, as an association list; its order of keys is kept by no caller.
use ot_tibia_teste.Common.{
  ℕ, ◌≡◌, refl, List, [], ◌∷◌, Option, none, some, arith, ◌==◌, if◌then◌else◌,
}

module _ {ℓ} {V : Type ℓ} where
  -- `m.find(key)`
  unfoldable pub lookup : ℕ → List (ℕ × V) → Option V
  lookup key [] = none
  lookup key (entry ∷ more) = if entry.0 == key then some entry.1 else lookup key more

  -- `m[key] = value`
  unfoldable pub insert : ℕ → V → List (ℕ × V) → List (ℕ × V)
  insert key value [] = (key, value) ∷ []
  insert key value (entry ∷ more) =
      let rest = insert key value more in
      if entry.0 == key then (key, value) ∷ more else entry ∷ rest

  -- `m.erase(key)`: every entry of the key, of which a map has at most one.
  unfoldable pub erase : ℕ → List (ℕ × V) → List (ℕ × V)
  erase key [] = []
  erase key (entry ∷ more) =
      let rest = erase key more in if entry.0 == key then rest else entry ∷ rest

  pub lookup-insert :
      (key other : ℕ) (value : V) (m : List (ℕ × V))
      → lookup other (insert key value m) ≡ (if key == other then some value else lookup other m)
  unfolding lookup insert
  lookup-insert key other value [] = refl
  lookup-insert key other value (entry ∷ more) = ground (arith, lookup-insert key other value more)

  pub lookup-erase :
      (key other : ℕ) (m : List (ℕ × V))
      → lookup other (erase key m) ≡ (if key == other then none else lookup other m)
  unfolding lookup erase
  lookup-erase key other [] = ground arith
  lookup-erase key other (entry ∷ more) = ground (arith, lookup-erase key other more)
