-- ===== src/ItemAttributes/Access.antt =====
-- src/item.cpp: the attributes of an item are a map from types to values, whatever the order of the
-- list, and the bits agree with it.
use ot_tibia_teste.Common.{
  ℕ, ◌≤◌, ◌≡◌, refl, sym, ◌∙◌, List, [], ◌∷◌, Option, none, some, true, false, ◌==◌, if◌then◌else◌,
  arith, Bool-cases, inl, inr,
}
use ot_tibia_teste.Common.Int.{ℤ}
use ot_tibia_teste.ItemAttributes.{
  bit, Value, integer, Attribute, ItemAttributes, is_int_attr_type, get_existing_attr, write_attr,
  append_attr, set_attr, get_int_attr, set_int_attr, effective, replace_attr, take_attr,
  remove_attribute, set_bit,
}
use ot_tibia_teste.ItemAttributes.Agreement.{
  has, count, first, first-none, find-first, Wrote-out, write_lem, Replaced-out, replace_lem,
  has_one,
}

-- A type stands in the list once where its bit is set, and not at all where it is not.
abbrev pub Agrees : ItemAttributes → Type 0
Agrees a = (k : ℕ) → count k a.attributes ≡ (if a.attribute_bits k then 1 else 0)

-- The value of a bit's type, as `getExistingAttr` finds it.
abbrev pub contents : ItemAttributes → ℕ → Option Value
contents a k = get_existing_attr (bit k) a

at_most_once : (a : ItemAttributes) (k : ℕ) → Agrees a → count k a.attributes ≤ 1
at_most_once a k h = ground (arith, h k)

contents_lem : (a : ItemAttributes) (k : ℕ) → Agrees a → contents a k ≡ first k a.attributes
unfolding get_existing_attr
contents_lem a k h =
    ground (arith, h k, find-first k a.attributes (at_most_once a k h), first-none k a.attributes)

-- One value is set, and the others are as they were.
abbrev pub Sets : ℕ → Option Value → ItemAttributes → ItemAttributes → Type 0
Sets j v a b =
    Agrees b × (contents b j ≡ v) × ((k : ℕ) → (k == j) ≡ false → contents b k ≡ contents a k)

-- It is enough to look at the list from the back.
sets_lem :
    (j : ℕ) (v : Option Value) (a b : ItemAttributes)
    → Agrees a
    → Agrees b
    → first j b.attributes ≡ v
    → ((k : ℕ) → (k == j) ≡ false → first k b.attributes ≡ first k a.attributes)
    → Sets j v a b
sets_lem j v a b h h' same others = (
  h',
  contents_lem b j h' ∙ same,
  λ k other. contents_lem b k h' ∙ others k other ∙ sym (contents_lem a k h),
)

set_attr-Sets :
    (j : ℕ) (v : Value) (a : ItemAttributes) → Agrees a → Sets j (some v) a (set_attr (bit j) v a)
unfolding set_attr append_attr
set_attr-Sets j v a h = elim (Bool-cases (a.attribute_bits j)) [
  | inl e ↦
      let (l', ran, (same, others, counts)) =
        Wrote-out j v a.attributes (write_attr (bit j) v a.attributes)
          (write_lem j v a.attributes (ground (arith, h j))) in
      rw (e, ran)
        (sets_lem j (some v) a (record a { attributes = l' }) h (λ k. counts k ∙ h k) same others)
  | inr e ↦ rw e (
      sets_lem j (some v) a (append_attr (bit j) v a) h (λ k. ground (arith, h k, h j))
        (ground arith) (λ k other. ground arith))
]

-- `setIntAttr` of a type for integers: `getIntAttr` gives the integer, or 100 where an attack speed
-- would be less; all other attributes are as before, and the bits agree with the list.
pub set_int_attr_lem :
    (j : ℕ) (i : ℤ) (a : ItemAttributes)
    → Agrees a
    → is_int_attr_type (bit j) ≡ true
    → (get_int_attr (bit j) (set_int_attr (bit j) i a) ≡ effective (bit j) i)
      × Sets j (some (integer (effective (bit j) i))) a (set_int_attr (bit j) i a)
unfolding get_int_attr set_int_attr
set_int_attr_lem j i a h int_type =
    let (agrees, same, others) = set_attr-Sets j (integer (effective (bit j) i)) a h in
    rw int_type (rw same refl, (agrees, same, others))

-- What is left of the list when the bit is set.
take_lem :
    (j : ℕ) (l : List Attribute)
    → count j l ≡ 1
    → (count j (take_attr (bit j) l) ≡ 0)
      × ((k : ℕ) → (k == j) ≡ false → count k (take_attr (bit j) l) ≡ count k l)
      × ((k : ℕ) → (k == j) ≡ false → count k l ≤ 1 → first k (take_attr (bit j) l) ≡ first k l)
unfolding take_attr
take_lem j [] h = absurd (omega arith)
take_lem j (last ∷ rest) h = elim (Bool-cases (has j last)) [
  | inl e ↦ rw e (
    ground arith,
    λ k other. ground (arith, has_one j k last other e),
    λ k other once. ground (arith, has_one j k last other e),
  )
  | inr e ↦
      let (l', ran, (less, counts, firsts)) =
        Replaced-out j last rest (replace_attr (bit j) last rest)
          (replace_lem j last rest e (ground arith)) in
      rw (e, ran) (ground arith, counts, firsts)
]

-- `removeAttribute`: the attribute is gone, all others are as before, and the bits agree with the list,
-- whose last element may have moved.
pub remove_attribute_lem :
    (j : ℕ) (a : ItemAttributes) → Agrees a → Sets j none a (remove_attribute (bit j) a)
unfolding remove_attribute
remove_attribute_lem j a h = elim (Bool-cases (a.attribute_bits j)) [
  | inl e ↦
      let (gone, counts, firsts) = take_lem j a.attributes (ground (arith, h j)) in
      rw e (
        sets_lem j none a
          (record {
            attributes = take_attr (bit j) a.attributes;
            attribute_bits = set_bit (bit j) false a.attribute_bits;
          })
          h (λ k. ground (arith, h k, gone, counts k))
          (first-none j (take_attr (bit j) a.attributes) gone)
          (λ k other. firsts k other (at_most_once a k h)))
  | inr e ↦
      rw e (
        sets_lem j none a a h h (first-none j a.attributes (ground (arith, h j))) (λ k other. refl))
]
