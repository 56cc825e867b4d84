-- ===== src/Tools/Examples.antt =====
-- Tests of `Tools`, and its theorems at concrete inputs.
use ot_tibia_teste.Common.{ℕ, ◌≡◌, refl, List, [], ◌∷◌, some, arith}
use ot_tibia_teste.Common.Int.{pos, negsuc, ◌-ℤ◌}
use ot_tibia_teste.Tools.Trim.{
  trim_left, trim_right, trim_string, to_upper, ucfirst, ucwords_after, ucwords,
}
use ot_tibia_teste.Tools.Text.{after, find, explode_from, explode_string}
use ot_tibia_teste.Tools.Text.Explode.{join, join-explode_string}

-- "a;b;;c"
abbrev fields : List ℕ
fields = 97 ∷ 59 ∷ 98 ∷ 59 ∷ 59 ∷ 99 ∷ []

fields_exploded :
    explode_string fields (59 ∷ []) (negsuc 0) ≡ some ((97 ∷ []) ∷ (98 ∷ []) ∷ [] ∷ (99 ∷ []) ∷ [])
unfolding explode_string explode_from find after ◌-ℤ◌
fields_exploded = refl

fields_limited :
    explode_string fields (59 ∷ []) (pos 1) ≡ some ((97 ∷ []) ∷ (98 ∷ 59 ∷ 59 ∷ 99 ∷ []) ∷ [])
unfolding explode_string explode_from find after ◌-ℤ◌
fields_limited = refl

join-explode_string_example :
    (pieces : List (List ℕ)) × (explode_string fields (59 ∷ []) (pos 1) ≡ some pieces)
    × (join (59 ∷ []) pieces ≡ fields)
join-explode_string_example = join-explode_string (59 ∷ []) fields (pos 1) (omega arith)

-- "  a b "
abbrev padded : List ℕ
padded = 32 ∷ 32 ∷ 97 ∷ 32 ∷ 98 ∷ 32 ∷ []

padded_trimmed : trim_string padded ≡ 97 ∷ 32 ∷ 98 ∷ []
unfolding trim_string trim_left trim_right
padded_trimmed = refl

padded-ucwords : ucwords padded ≡ 32 ∷ 32 ∷ 65 ∷ 32 ∷ 66 ∷ 32 ∷ []
unfolding ucwords ucwords_after to_upper
padded-ucwords = refl

padded-ucfirst : ucfirst padded ≡ 32 ∷ 32 ∷ 65 ∷ 32 ∷ 98 ∷ 32 ∷ []
unfolding ucfirst to_upper
padded-ucfirst = refl
