-- ===== src/ItemAttributes/Agreement.antt =====
-- src/item.cpp: how often a type stands in the list of attributes, and what the loops find there.
use ot_tibia_teste.Common.{
  ℕ, suc, ◌≤◌, ◌<◌, ◌≡◌, refl, List, [], ◌∷◌, Option, none, some, Bool, true, false, ◌==◌,
  if◌then◌else◌, arith, Bool-cases, inl, inr,
}
use ot_tibia_teste.ItemAttributes.{
  AttrType, none_type, bit, Value, Attribute, is_type, find_attr, write_attr, replace_attr,
}

-- The attribute has the bit.
abbrev pub has : ℕ → Attribute → Bool
has k a = is_type a.type (bit k)

abbrev pub count : ℕ → List Attribute → ℕ
count k [] = 0
count k (a ∷ rest) = if has k a then suc (count k rest) else count k rest

-- The value from the back on.
abbrev pub first : ℕ → List Attribute → Option Value
first k [] = none
first k (a ∷ rest) = if has k a then some a.value else first k rest

pub has_one : (j k : ℕ) (a : Attribute) → (k == j) ≡ false → has j a ≡ true → has k a ≡ false
has_one j k a other h = go a.type h
  where
    go : (t : AttrType) → is_type t (bit j) ≡ true → is_type t (bit k) ≡ false
    go none_type h = refl
    go (bit i) h = ground arith

pub first-none : (k : ℕ) (l : List Attribute) → count k l ≡ 0 → first k l ≡ none
first-none k [] h = refl
first-none k (a ∷ rest) h = ground (arith, first-none k rest)

pub first-some : (k : ℕ) (l : List Attribute) → 0 < count k l → (v : Value) × (first k l ≡ some v)
first-some k [] h = absurd (omega arith)
first-some k (a ∷ rest) h = elim (Bool-cases (has k a)) [
  | inl e ↦ (a.value, rw e refl)
  | inr e ↦ let (v, f) = first-some k rest (ground arith) in (v, rw e f)
]

-- Where a type stands once at most, the order of the search does not matter.
pub find-first : (k : ℕ) (l : List Attribute) → count k l ≤ 1 → find_attr (bit k) l ≡ first k l
unfolding find_attr
find-first k [] h = refl
find-first k (a ∷ rest) h = ground (arith, find-first k rest, first-none k rest)

write-none :
    (j : ℕ) (v : Value) (l : List Attribute) → count j l ≡ 0 → write_attr (bit j) v l ≡ none
unfolding write_attr
write-none j v [] h = refl
write-none j v (a ∷ rest) h = ground (arith, write-none j v rest)

-- Written where it stands, and all else as it was.
abbrev pub Wrote : ℕ → Value → List Attribute → Option (List Attribute) → Type 0
Wrote j v l none = ⊥
Wrote j v l (some l') =
    (first j l' ≡ some v)
    × ((k : ℕ) → (k == j) ≡ false → first k l' ≡ first k l)
    × ((k : ℕ) → count k l' ≡ count k l)

pub Wrote-out :
    (j : ℕ) (v : Value) (l : List Attribute) (o : Option (List Attribute))
    → Wrote j v l o
    → (l' : List Attribute) × (o ≡ some l') × Wrote j v l (some l')
Wrote-out j v l none h = absurd h
Wrote-out j v l (some l') h = (l', refl, h)

pub write_lem :
    (j : ℕ) (v : Value) (l : List Attribute) → count j l ≡ 1 → Wrote j v l (write_attr (bit j) v l)
unfolding write_attr
write_lem j v [] h = absurd (omega arith)
write_lem j v (a ∷ rest) h = elim (Bool-cases (has j a)) [
  | inl e ↦
      rw (write-none j v rest (ground arith), e)
        (rw e refl, λ k other. ground (arith, has_one j k a other e), λ k. refl)
  | inr e ↦
      let (l', ran, (same, others, counts)) =
        Wrote-out j v rest (write_attr (bit j) v rest) (write_lem j v rest (ground arith)) in
      rw ran (rw e same, λ k other. ground (arith, others k other), λ k. ground (arith, counts k))
]

-- The attribute that has the bit is gone, the last one stands in its place.
abbrev pub Replaced : ℕ → Attribute → List Attribute → Option (List Attribute) → Type 0
Replaced j last l none = ⊥
Replaced j last l (some l') =
    (suc (count j l') ≡ count j l)
    × ((k : ℕ) → (k == j) ≡ false → count k l' ≡ count k (last ∷ l))
    × ((k : ℕ) → (k == j) ≡ false → count k (last ∷ l) ≤ 1 → first k l' ≡ first k (last ∷ l))

pub Replaced-out :
    (j : ℕ) (last : Attribute) (l : List Attribute) (o : Option (List Attribute))
    → Replaced j last l o
    → (l' : List Attribute) × (o ≡ some l') × Replaced j last l (some l')
Replaced-out j last l none h = absurd h
Replaced-out j last l (some l') h = (l', refl, h)

pub replace_lem :
    (j : ℕ) (last : Attribute) (l : List Attribute)
    → has j last ≡ false
    → 0 < count j l
    → Replaced j last l (replace_attr (bit j) last l)
unfolding replace_attr
replace_lem j last [] h some_there = absurd (omega arith)
replace_lem j last (a ∷ rest) h some_there = elim (Bool-cases (has j a)) [
  | inl e ↦ rw e (
    ground arith,
    λ k other. ground (arith, has_one j k a other e),
    λ k other once. ground (arith, has_one j k a other e),
  )
  | inr e ↦
      let (l', ran, (less, counts, firsts)) =
        Replaced-out j last rest (replace_attr (bit j) last rest)
          (replace_lem j last rest h (ground arith)) in
      rw (e, ran)
        (
          ground arith,
          λ k other. ground (arith, counts k other),
          λ k other once. ground (arith, firsts k other, first-none k rest),
        )
]
