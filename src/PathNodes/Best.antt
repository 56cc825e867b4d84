-- ===== src/PathNodes/Best.antt =====
-- src/map.cpp: `getBestNode` gives an open node of the least cost.
use ot_tibia_teste.Common.{
  ℕ, suc, ◌+◌, ◌≤◌, ◌<◌, ◌≡◌, refl, ap, ◌∙◌, ◌⊎◌, inl, inr, List, [], ◌∷◌, Option, none, some, true,
  false, ◌&&◌, ltb, arith, All, Bool-cases, get_elem?,
}
use ot_tibia_teste.PathNodes.{AStarNode, AStarNodes, best_from, get_best_node, int32_max}

-- An open node costs so much at least.
abbrev pub CostsAtLeast : ℕ → AStarNode → Type 0
CostsAtLeast f n = n.is_open ≡ true → f ≤ n.f

weaken : (f g : ℕ) (l : List AStarNode) → g ≤ f → All (CostsAtLeast f) l → All (CostsAtLeast g) l
weaken f g [] h k = tt
weaken f g (n ∷ rest) h k = (λ o. let le = k.0 o in omega arith, weaken f g rest h k.1)

-- The node of the list that is chosen, at this index: open, below the bound, and none costs less.
abbrev pub IsBest : List AStarNode → ℕ → ℕ → Type 0
IsBest l bound d =
    (n : AStarNode) × (get_elem? l d ≡ some n)
    × (n.is_open ≡ true)
    × (n.f < bound)
    × All (CostsAtLeast n.f) l

taken :
    (i : ℕ) (n : AStarNode) (rest : List AStarNode) (bound : ℕ) (best : Option ℕ)
    → (n.is_open && ltb n.f bound) ≡ true
    → best_from i (n ∷ rest) bound best ≡ best_from (suc i) rest n.f (some i)
unfolding best_from
taken i n rest bound best e = ground arith

passed :
    (i : ℕ) (n : AStarNode) (rest : List AStarNode) (bound : ℕ) (best : Option ℕ)
    → (n.is_open && ltb n.f bound) ≡ false
    → best_from i (n ∷ rest) bound best ≡ best_from (suc i) rest bound best
unfolding best_from
passed i n rest bound best e = ground arith

later : (i d : ℕ) → suc i + d ≡ i + suc d
later i d = omega arith

best_from_lem :
    (i : ℕ) (l : List AStarNode) (bound : ℕ) (best : Option ℕ)
    → ((best_from i l bound best ≡ best) × All (CostsAtLeast bound) l)
      ⊎ ((d : ℕ) × (best_from i l bound best ≡ some (i + d)) × IsBest l bound d)
unfolding best_from
best_from_lem i [] bound best = inl (refl, tt)
best_from_lem i (n ∷ rest) bound best = elim (Bool-cases (n.is_open && ltb n.f bound)) [
  | inl e ↦ elim (best_from_lem (suc i) rest n.f (some i)) [
    | inl (same, all) ↦ inr (
      0,
      taken i n rest bound best e ∙ same ∙ ap some (omega arith),
      (n, refl, ground arith, ground arith, (λ o. omega arith, all)),
    )
    | inr (d, found, (m, at, opened, less, all)) ↦ inr (
      suc d,
      taken i n rest bound best e ∙ found ∙ ap some (later i d),
      (m, at, opened, ground arith, (λ o. omega arith, all)),
    )
  ]
  | inr e ↦ elim (best_from_lem (suc i) rest bound best) [
    | inl (same, all) ↦ inl (passed i n rest bound best e ∙ same, (λ o. ground arith, all))
    | inr (d, found, (m, at, opened, less, all)) ↦ inr (
      suc d,
      passed i n rest bound best e ∙ found ∙ ap some (later i d),
      (m, at, opened, less, (λ o. ground arith, all)),
    )
  ]
]

-- `getBestNode`: an open node that no other open node is cheaper than, or none, where no open node
-- costs less than the greatest int32_t.
pub get_best_node_lem :
    (s : AStarNodes)
    → ((get_best_node s ≡ none) × All (CostsAtLeast int32_max) s.nodes)
      ⊎ ((d : ℕ) × (get_best_node s ≡ some d) × IsBest s.nodes int32_max d)
unfolding get_best_node
get_best_node_lem s = elim (best_from_lem 0 s.nodes int32_max none) [
  | inl h ↦ inl h
  | inr (d, found, best) ↦ let index : 0 + d ≡ d = omega arith in inr (d, rw (← index) found, best)
]
