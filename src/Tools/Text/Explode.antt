-- ===== src/Tools/Text/Explode.antt =====
-- src/tools.cpp: taking a text apart and putting it together again.
use ot_tibia_teste.Common.{
  ℕ, zero, suc, ◌<◌, ◌≡◌, refl, ap, ◌∙◌, List, [], ◌∷◌, ◌++◌, Option, none, some, ◌>>=◌, arith,
  ◌==◌, if◌then◌else◌, length, length-append, Bool-cases, inl, inr,
}
use ot_tibia_teste.Common.Int.{ℤ, pos, ◌-ℤ◌}
use ot_tibia_teste.Tools.Text.{after, find, is_minus_one, explode_from, explode_string}

-- The pieces with the separator between them.
abbrev pub join : List ℕ → List (List ℕ) → List ℕ
join separator [] = []
join separator (piece ∷ []) = piece
join separator (piece ∷ pieces) = piece ++ (separator ++ join separator pieces)

abbrev Follows : List ℕ → List ℕ → Option (List ℕ) → Type 0
Follows sought s none = Unit
Follows sought s (some rest) = sought ++ rest ≡ s

after-Follows : (sought s : List ℕ) → Follows sought s (after sought s)
unfolding after
after-Follows [] s = refl
after-Follows (c ∷ cs) [] = tt
after-Follows (c ∷ cs) (d ∷ ds) = same (after cs ds) (after-Follows cs ds)
  where
    same :
        (r : Option (List ℕ))
        → Follows cs ds r
        → Follows (c ∷ cs) (d ∷ ds) (if c == d then r else none)
    same none h = ground arith
    same (some rest) h = ground (arith, h)

-- What was found is in the text.
abbrev pub Splits : List ℕ → List ℕ → Option (List ℕ × List ℕ) → Type 0
Splits sought s none = Unit
Splits sought s (some p) = p.0 ++ (sought ++ p.1) ≡ s

pub find-Splits : (sought s : List ℕ) → Splits sought s (find sought s)
unfolding find
find-Splits sought [] = front (after sought []) (after-Follows sought [])
  where
    front :
        (r : Option (List ℕ))
        → Follows sought [] r
        → Splits sought [] (r >>= λ rest. some ([], rest))
    front none h = tt
    front (some rest) h = h
find-Splits sought (c ∷ cs) =
    later (after sought (c ∷ cs)) (find sought cs) (after-Follows sought (c ∷ cs))
      (find-Splits sought cs)
  where
    later :
        (r : Option (List ℕ)) (o : Option (List ℕ × List ℕ))
        → Follows sought (c ∷ cs) r
        → Splits sought cs o
        → Splits sought
            (c ∷ cs)
            (elim r [ some rest ↦ some ([], rest) | none ↦ o >>= λ p. some (c ∷ p.0, p.1) ])
    later (some rest) o h k = h
    later none none h k = tt
    later none (some p) h k = ap (λ l. c ∷ l) k

-- The pieces are some, and give the text.
abbrev pub Joins : List ℕ → List ℕ → Option (List (List ℕ)) → Type 0
Joins separator s none = ⊥
Joins separator s (some []) = ⊥
Joins separator s (some (piece ∷ pieces)) = join separator (piece ∷ pieces) ≡ s

piece-Joins :
    (separator s : List ℕ) (p : List ℕ × List ℕ) (r : Option (List (List ℕ)))
    → p.0 ++ (separator ++ p.1) ≡ s
    → Joins separator p.1 r
    → Joins separator s (r >>= λ pieces. some (p.0 ∷ pieces))
piece-Joins separator s p none e h = h
piece-Joins separator s p (some []) e h = absurd h
piece-Joins separator s p (some (piece ∷ pieces)) e h = ap (λ l. p.0 ++ (separator ++ l)) h ∙ e

pub shorter :
    (separator s : List ℕ) (p : List ℕ × List ℕ)
    → 0 < length separator
    → p.0 ++ (separator ++ p.1) ≡ s
    → length p.1 < length s
shorter separator s p n e =
    omega (arith, ap length e, length-append p.0 (separator ++ p.1), length-append separator p.1)

-- A turn of the loop, with the pieces of what follows.
turn :
    (separator s : List ℕ) (f : List ℕ → Option (List (List ℕ))) (o : Option (List ℕ × List ℕ))
    → Splits separator s o
    → ((p : List ℕ × List ℕ) → p.0 ++ (separator ++ p.1) ≡ s → Joins separator p.1 (f p.1))
    → Joins separator s
        (elim o [ none ↦ some (s ∷ []) | some p ↦ f p.1 >>= λ pieces. some (p.0 ∷ pieces) ])
turn separator s f none h k = refl
turn separator s f (some p) h k = piece-Joins separator s p (f p.1) h (k p h)

pub explode_from-Joins :
    (fuel : ℕ) (separator s : List ℕ) (limit : ℤ)
    → 0 < length separator
    → length s < fuel
    → Joins separator s (explode_from fuel s separator limit)
unfolding explode_from
explode_from-Joins zero separator s limit n enough = absurd (omega arith)
explode_from-Joins (suc fuel) separator s limit n enough =
    elim (Bool-cases (is_minus_one (limit -ℤ pos 1))) [
      | inl e ↦ rw e refl
      | inr e ↦ rw e (
          turn separator s (λ rest. explode_from fuel rest separator (limit -ℤ pos 1))
            (find separator s) (find-Splits separator s)
            λ p split.
              explode_from-Joins fuel separator p.1 (limit -ℤ pos 1) n
                (omega (arith, shorter separator s p n split)))
    ]

-- Whatever the limit, a text that is taken apart at a separator has the pieces that give the text
-- again with the separator between them, if the separator is not empty.
pub join-explode_string :
    (separator s : List ℕ) (limit : ℤ)
    → 0 < length separator
    → (pieces : List (List ℕ)) × (explode_string s separator limit ≡ some pieces)
      × (join separator pieces ≡ s)
unfolding explode_string
join-explode_string separator s limit n =
    joined (explode_from (suc (length s)) s separator limit)
      (explode_from-Joins (suc (length s)) separator s limit n (omega arith))
  where
    joined :
        (r : Option (List (List ℕ)))
        → Joins separator s r
        → (pieces : List (List ℕ)) × (r ≡ some pieces) × (join separator pieces ≡ s)
    joined none h = absurd h
    joined (some []) h = absurd h
    joined (some (piece ∷ pieces)) h = (piece ∷ pieces, refl, h)
