-- ===== src/ItemAttributes.antt =====
-- `ItemAttributes` of src/item.h and src/item.cpp: the attributes of an item, and the bits that say
-- which it has. Texts are lists of bytes; a pointer to a text is the text. Custom attributes, which
-- scripts keep in a map of their own, are left out.
pub mod Agreement
pub mod Access
mod Examples
use ot_tibia_teste.Common.{
  ℕ, zero, suc, List, [], ◌∷◌, Option, none, some, Bool, true, false, not, ltb, ◌==◌, if◌then◌else◌,
  contains,
}
use ot_tibia_teste.Common.Int.{ℤ, pos, negsuc, ◌+ℤ◌}

-- An attribute's type: `ITEM_ATTRIBUTE_NONE`, which is 0, or one bit, by its number.
pub data AttrType : Type 0 where
  none_type : AttrType
  bit : ℕ → AttrType

abbrev pub attack_speed : ℕ
attack_speed = 26

-- The union; a new one is all zeros.
pub data Value : Type 0 where
  integer : ℤ → Value
  string : List ℕ → Value

pub record Attribute : Type 0 where
  pub type : AttrType
  pub value : Value

-- `attributes` from the back on, and `attributeBits` bit by bit.
pub record ItemAttributes : Type 0 where
  pub attributes : List Attribute
  pub attribute_bits : ℕ → Bool

abbrev pub is_type : AttrType → AttrType → Bool
is_type none_type none_type = true
is_type none_type (bit k) = false
is_type (bit j) none_type = false
is_type (bit j) (bit k) = j == k

-- `(type & attributeBits) != 0`
abbrev pub has_attribute : AttrType → ItemAttributes → Bool
has_attribute none_type a = false
has_attribute (bit k) a = a.attribute_bits k

-- `stringAttributeTypes` and `intAttributeTypes`. No bit at all is in both.
abbrev pub string_bits : List ℕ
string_bits = 2 ∷ 3 ∷ 5 ∷ 6 ∷ 7 ∷ 8 ∷ []

abbrev pub is_str_attr_type : AttrType → Bool
is_str_attr_type none_type = true
is_str_attr_type (bit k) = contains k string_bits

abbrev pub is_int_attr_type : AttrType → Bool
is_int_attr_type none_type = true
is_int_attr_type (bit k) = if contains k string_bits then false else ltb k 27

-- The loop of `getExistingAttr`, from the front: of two, the one further from the back.
unfoldable pub find_attr : AttrType → List Attribute → Option Value
find_attr t [] = none
find_attr t (a ∷ rest) = elim (find_attr t rest) [
  | some v ↦ some v
  | none ↦ if is_type a.type t then some a.value else none
]

unfoldable pub get_existing_attr : AttrType → ItemAttributes → Option Value
get_existing_attr t a = if has_attribute t a then find_attr t a.attributes else none

-- A value is written to the attribute that the loop of `getAttr` finds, if it finds one.
unfoldable pub write_attr : AttrType → Value → List Attribute → Option (List Attribute)
write_attr t v [] = none
write_attr t v (a ∷ rest) = elim (write_attr t v rest) [
  | some written ↦ some (a ∷ written)
  | none ↦ if is_type a.type t then some (record a { value = v } ∷ rest) else none
]

abbrev pub set_bit : AttrType → Bool → (ℕ → Bool) → ℕ → Bool
set_bit none_type b bits = bits
set_bit (bit k) b bits = λ j. if j == k then b else bits j

-- `attributeBits |= type; attributes.emplace_back(type)`
unfoldable pub append_attr : AttrType → Value → ItemAttributes → ItemAttributes
append_attr t v a = record {
  attributes = record { type = t; value = v } ∷ a.attributes;
  attribute_bits = set_bit t true a.attribute_bits;
}

-- `getAttr(type).value = v`
unfoldable pub set_attr : AttrType → Value → ItemAttributes → ItemAttributes
unfolding append_attr
set_attr t v a =
    if has_attribute t a
    then elim (write_attr t v a.attributes) [
      | some written ↦ record a { attributes = written }
      | none ↦ append_attr t v a
    ]
    else append_attr t v a

unfoldable pub get_str_attr : AttrType → ItemAttributes → List ℕ
get_str_attr t a = if not (is_str_attr_type t) then [] else elim (get_existing_attr t a) [
  | none ↦ []
  | some v ↦ elim v [ string s ↦ s | integer i ↦ [] ]
]

unfoldable pub set_str_attr : AttrType → List ℕ → ItemAttributes → ItemAttributes
set_str_attr t s a =
    if not (is_str_attr_type t)
    then a
    else elim s [ [] ↦ a | c ∷ cs ↦ set_attr t (string (c ∷ cs)) a ]

unfoldable pub get_int_attr : AttrType → ItemAttributes → ℤ
get_int_attr t a = if not (is_int_attr_type t) then pos 0 else elim (get_existing_attr t a) [
  | none ↦ pos 0
  | some v ↦ elim v [ integer i ↦ i | string s ↦ pos 0 ]
]

-- An attack speed is 100 at least.
abbrev pub at_least_100 : ℤ → ℤ
at_least_100 (pos n) = if ltb n 100 then pos 100 else pos n
at_least_100 (negsuc n) = pos 100

abbrev pub effective : AttrType → ℤ → ℤ
effective t i = if is_type t (bit attack_speed) then at_least_100 i else i

unfoldable pub set_int_attr : AttrType → ℤ → ItemAttributes → ItemAttributes
set_int_attr t i a = if not (is_int_attr_type t) then a else set_attr t (integer (effective t i)) a

unfoldable pub increase_int_attr : AttrType → ℤ → ItemAttributes → ItemAttributes
increase_int_attr t i a = set_int_attr t (get_int_attr t a +ℤ i) a

-- The loop of `removeAttribute` over those before the last: the first from the back that has the type
-- becomes the last one.
unfoldable pub replace_attr : AttrType → Attribute → List Attribute → Option (List Attribute)
replace_attr t last [] = none
replace_attr t last (a ∷ rest) =
    let later = replace_attr t last rest in
    if is_type a.type t
    then some (last ∷ rest)
    else elim later [ none ↦ none | some replaced ↦ some (a ∷ replaced) ]

unfoldable pub take_attr : AttrType → List Attribute → List Attribute
take_attr t [] = []
take_attr t (last ∷ rest) =
    if is_type last.type t
    then rest
    else elim (replace_attr t last rest) [ none ↦ last ∷ rest | some replaced ↦ replaced ]

unfoldable pub remove_attribute : AttrType → ItemAttributes → ItemAttributes
remove_attribute t a = if not (has_attribute t a) then a else record {
  attributes = take_attr t a.attributes;
  attribute_bits = set_bit t false a.attribute_bits;
}
