-- ===== src/Tools/Text/Replace.antt =====
-- src/tools.cpp: `replaceString` by means of `explodeString`.
use ot_tibia_teste.Common.{
  ℕ, zero, suc, ◌<◌, ◌≡◌, refl, sym, subst, false, List, [], ◌∷◌, ◌++◌, Option, none, some, ◌>>=◌,
  arith, length,
}
use ot_tibia_teste.Common.Int.{pos, negsuc, ◌-ℤ◌}
use ot_tibia_teste.Tools.Text.{
  find, is_minus_one, explode_from, explode_string, replace_from, replace_string,
}
use ot_tibia_teste.Tools.Text.Explode.{
  join, Joins, Splits, find-Splits, shorter, explode_from-Joins,
}

less_one : (n : ℕ) → negsuc n -ℤ pos 1 ≡ negsuc (suc n)
unfolding ◌-ℤ◌
less_one n = ground arith

goes_on : (n : ℕ) → is_minus_one (negsuc n -ℤ pos 1) ≡ false
unfolding ◌-ℤ◌
goes_on n = ground arith

-- The pieces joined, and the piece before them put in front.
joined_behind :
    (separator rest replacement front : List ℕ) (r : Option (List (List ℕ)))
    → Joins separator rest r
    → ((r >>= λ pieces. some (join replacement pieces)) >>= λ text.
        some (front ++ (replacement ++ text)))
      ≡ ((r >>= λ pieces. some (front ∷ pieces)) >>= λ pieces. some (join replacement pieces))
joined_behind separator rest replacement front none h = absurd h
joined_behind separator rest replacement front (some []) h = absurd h
joined_behind separator rest replacement front (some (piece ∷ pieces)) h = refl

replaced :
    (sought replacement s : List ℕ) (f : List ℕ → Option (List (List ℕ)))
    (g : List ℕ → Option (List ℕ)) (o : Option (List ℕ × List ℕ))
    → Splits sought s o
    → ((p : List ℕ × List ℕ)
        → p.0 ++ (sought ++ p.1) ≡ s
        → Joins sought p.1 (f p.1) × (g p.1 ≡ (f p.1 >>= λ pieces. some (join replacement pieces))))
    → (elim o [ none ↦ some s | some p ↦ g p.1 >>= λ text. some (p.0 ++ (replacement ++ text)) ])
      ≡ ((elim o [ none ↦ some (s ∷ []) | some p ↦ f p.1 >>= λ pieces. some (p.0 ∷ pieces) ])
          >>= λ pieces. some (join replacement pieces))
replaced sought replacement s f g none h k = refl
replaced sought replacement s f g (some p) h k =
    let (joins, same) = k p h in rw same (joined_behind sought p.1 replacement p.0 (f p.1) joins)

replace_from-explode :
    (fuel n : ℕ) (sought s replacement : List ℕ)
    → 0 < length sought
    → length s < fuel
    → replace_from fuel s sought replacement
      ≡ (explode_from fuel s sought (negsuc n) >>= λ pieces. some (join replacement pieces))
unfolding replace_from explode_from
replace_from-explode zero n sought s replacement long enough = absurd (omega arith)
replace_from-explode (suc fuel) n sought s replacement long enough = rw (goes_on n) (
    replaced sought replacement s (λ rest. explode_from fuel rest sought (negsuc n -ℤ pos 1))
      (λ rest. replace_from fuel rest sought replacement) (find sought s) (find-Splits sought s)
      λ p split.
        let short = shorter sought s p long split in
        (
          explode_from-Joins fuel sought p.1 (negsuc n -ℤ pos 1) long (omega (arith, short)),
          subst
              (λ l.
                replace_from fuel p.1 sought replacement
                ≡ (explode_from fuel p.1 sought l >>= λ pieces. some (join replacement pieces)))
              (sym (less_one n))
              (replace_from-explode fuel (suc n) sought p.1 replacement long
                (omega (arith, short))),
        ))

-- To replace all occurrences of a text that is not empty is to take the string apart at it, without a
-- limit, and to join the pieces with the replacement; both come to their end.
pub replace_string-explode :
    (sought s replacement : List ℕ)
    → 0 < length sought
    → (pieces : List (List ℕ)) × (explode_string s sought (negsuc 0) ≡ some pieces)
      × (replace_string s sought replacement ≡ some (join replacement pieces))
unfolding explode_string replace_string
replace_string-explode sought s replacement long =
    ended (explode_from (suc (length s)) s sought (negsuc 0))
      (explode_from-Joins (suc (length s)) sought s (negsuc 0) long (omega arith))
      (replace_from-explode (suc (length s)) 0 sought s replacement long (omega arith))
  where
    ended :
        (r : Option (List (List ℕ)))
        → Joins sought s r
        → replace_from (suc (length s)) s sought replacement
          ≡ (r >>= λ pieces. some (join replacement pieces))
        → (pieces : List (List ℕ)) × (r ≡ some pieces)
          × (replace_from (suc (length s)) s sought replacement ≡ some (join replacement pieces))
    ended none h e = absurd h
    ended (some pieces) h e = (pieces, refl, e)
