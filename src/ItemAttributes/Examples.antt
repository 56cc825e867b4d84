-- ===== src/ItemAttributes/Examples.antt =====
-- Tests of `ItemAttributes`, and its theorems at concrete inputs.
use ot_tibia_teste.Common.{
  ◌≡◌, refl, [], ◌∷◌, some, none, true, false, ◌==◌, if◌then◌else◌, length, arith,
}
use ot_tibia_teste.Common.Int.{pos, negsuc}
use ot_tibia_teste.ItemAttributes.{
  none_type, bit, integer, string, ItemAttributes, set_attr, append_attr, set_int_attr,
  get_int_attr, set_str_attr, get_existing_attr, take_attr, replace_attr, remove_attribute,
  effective, attack_speed,
}
use ot_tibia_teste.ItemAttributes.Access.{Agrees, Sets, set_int_attr_lem, remove_attribute_lem}

abbrev plain : ItemAttributes
plain = record { attributes = []; attribute_bits = λ k. false }

-- An action id, a text and an attack speed.
abbrev sign : ItemAttributes
sign = record {
  attributes =
      record { type = bit 26; value = integer (pos 100) }
      ∷ record { type = bit 3; value = string (72 ∷ 105 ∷ []) }
      ∷ record { type = bit 0; value = integer (pos 55) }
      ∷ [];
  attribute_bits =
      λ k. if k == 26 then true else if k == 3 then true else if k == 0 then true else false;
}

written :
    set_int_attr
      (bit attack_speed)
      (negsuc 3)
      (set_str_attr (bit 3) (72 ∷ 105 ∷ []) (set_int_attr (bit 0) (pos 55) plain))
    ≡ sign
unfolding set_int_attr set_str_attr set_attr append_attr
written = refl

-- The last attribute takes the place of the first one.
moved_up :
    (remove_attribute (bit 0) sign).attributes
    ≡ record { type = bit 3; value = string (72 ∷ 105 ∷ []) }
      ∷ record { type = bit 26; value = integer (pos 100) }
      ∷ []
unfolding remove_attribute take_attr replace_attr
moved_up = refl

-- The type without a bit is effective, and adds to the list each time without being found.
piled_up :
    let twice = set_int_attr none_type (pos 5) (set_int_attr none_type (pos 5) plain) in
    (length twice.attributes ≡ 2) × (get_int_attr none_type twice ≡ pos 0)
unfolding set_int_attr set_attr append_attr get_int_attr get_existing_attr
piled_up = (refl, refl)

sign-Agrees : Agrees sign
sign-Agrees k = ground arith

set_int_attr_lem_example :
    (get_int_attr (bit 0) (set_int_attr (bit 0) (pos 77) sign) ≡ effective (bit 0) (pos 77))
    × Sets 0 (some (integer (effective (bit 0) (pos 77)))) sign (set_int_attr (bit 0) (pos 77) sign)
set_int_attr_lem_example = set_int_attr_lem 0 (pos 77) sign sign-Agrees refl

remove_attribute_lem_example : Sets 0 none sign (remove_attribute (bit 0) sign)
remove_attribute_lem_example = remove_attribute_lem 0 sign sign-Agrees
