-- ===== src/Tools/Text.antt =====
-- src/tools.cpp: strings as lists of bytes.
use ot_tibia_teste.Common.{
  ℕ, zero, suc, ◌+◌, List, [], ◌∷◌, ◌++◌, Option, none, some, Bool, true, false, ◌==◌,
  if◌then◌else◌, ◌>>=◌, length,
}
use ot_tibia_teste.Common.Int.{ℤ, pos, negsuc, ◌-ℤ◌}
pub mod Explode
pub mod Replace

-- What follows `sought` at the front of a text.
unfoldable pub after : List ℕ → List ℕ → Option (List ℕ)
after [] s = some s
after (c ∷ cs) [] = none
after (c ∷ cs) (d ∷ ds) = let rest = after cs ds in if c == d then rest else none

-- `s.find(sought)`: what stands before the first place of `sought`, and what after it.
unfoldable pub find : List ℕ → List ℕ → Option (List ℕ × List ℕ)
unfolding after
find sought [] = after sought [] >>= λ rest. some ([], rest)
find sought (c ∷ cs) =
    let later = find sought cs in
    elim (after sought (c ∷ cs)) [
      | some rest ↦ some ([], rest)
      | none ↦ later >>= λ p. some (c ∷ p.0, p.1)
    ]

abbrev pub is_minus_one : ℤ → Bool
is_minus_one (pos n) = false
is_minus_one (negsuc n) = n == 0

-- `inString` from `start` on. Fuel for a turn of the loop each; `limit` is an int32_t, which only a
-- text of more than 2 ^ 31 pieces could take below its least value.
unfoldable pub explode_from : ℕ → List ℕ → List ℕ → ℤ → Option (List (List ℕ))
unfolding find ◌-ℤ◌
explode_from zero s separator limit = none
explode_from (suc fuel) s separator limit =
    if is_minus_one (limit -ℤ pos 1) then some (s ∷ []) else elim (find separator s) [
      | none ↦ some (s ∷ [])
      | some p ↦ explode_from fuel p.1 separator (limit -ℤ pos 1) >>= λ pieces. some (p.0 ∷ pieces)
    ]

unfoldable pub explode_string : List ℕ → List ℕ → ℤ → Option (List (List ℕ))
unfolding explode_from
explode_string s separator limit = explode_from (suc (length s)) s separator limit

-- `str` from `start` on.
unfoldable pub replace_from : ℕ → List ℕ → List ℕ → List ℕ → Option (List ℕ)
unfolding find
replace_from zero s sought replacement = none
replace_from (suc fuel) s sought replacement = elim (find sought s) [
  | none ↦ some s
  | some p ↦
      replace_from fuel p.1 sought replacement >>= λ rest. some (p.0 ++ (replacement ++ rest))
]

unfoldable pub replace_string : List ℕ → List ℕ → List ℕ → Option (List ℕ)
unfolding replace_from
replace_string s sought replacement = replace_from (suc (length s)) s sought replacement
