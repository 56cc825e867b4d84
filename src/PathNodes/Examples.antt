-- ===== src/PathNodes/Examples.antt =====
-- Tests of `PathNodes`, and its theorems at concrete inputs.
use ot_tibia_teste.Common.{ℕ, ◌≡◌, refl, ◌⊎◌, List, [], ◌∷◌, none, some, All}
use ot_tibia_teste.Common.Int.{pos, ◌+ℤ◌, ◌-ℤ◌}
use ot_tibia_teste.Common.Maps.{lookup, insert}
use ot_tibia_teste.PathNodes.{
  int32_max, new_nodes, create_open_node, improve, best_from, get_best_node, close_node, open_node,
  get_node_by_position,
}
use ot_tibia_teste.PathNodes.Best.{IsBest, CostsAtLeast, get_best_node_lem}
use ot_tibia_teste.PathNodes.Counts.{
  Action, make, reopen, close_best, act, act_all, IsSound, search-IsSound,
}

-- Two neighbours of the start, which is closed then; the cheaper one is closed and opened again.
abbrev acts : List Action
acts = make 0 101 100 35 ∷ make 0 100 101 10 ∷ close_best ∷ close_best ∷ reopen 1 100 101 9 ∷ []

searched :
    let s = act_all (new_nodes 100 100) acts in
    (s.closed_nodes ≡ pos 1) × (get_best_node s ≡ some 2)
unfolding act_all act new_nodes create_open_node best_from get_best_node close_node open_node
    improve get_node_by_position lookup insert ◌+ℤ◌ ◌-ℤ◌
searched = (refl, refl)

search-IsSound_example : IsSound (act_all (new_nodes 100 100) acts)
search-IsSound_example = search-IsSound 100 100 acts

get_best_node_lem_example :
    ((get_best_node (new_nodes 100 100) ≡ none)
      × All (CostsAtLeast int32_max) (new_nodes 100 100).nodes)
    ⊎ ((d : ℕ) × (get_best_node (new_nodes 100 100) ≡ some d)
        × IsBest (new_nodes 100 100).nodes int32_max d)
get_best_node_lem_example = get_best_node_lem (new_nodes 100 100)
