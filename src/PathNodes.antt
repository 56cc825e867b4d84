-- ===== src/PathNodes.antt =====
-- `AStarNodes` of src/map.h and src/map.cpp: the nodes of the search for a path. A pointer to a node is
-- its index. The fields `openNodes` and `nodes` are one list, up to `curNode`; costs are not negative.
pub mod Best
pub mod Counts
mod Examples
use ot_tibia_teste.Common.{
  ℕ, zero, suc, ◌+◌, ◌-◌, ◌*◌, ◌^◌, List, [], ◌∷◌, ◌++◌, Option, none, some, Bool, true, false,
  ◌&&◌, ltb, leb, if◌then◌else◌, length,
}
use ot_tibia_teste.Common.Int.{ℤ, pos, ◌+ℤ◌, ◌-ℤ◌}
use ot_tibia_teste.Common.Words.{u32}
use ot_tibia_teste.Common.Maps.{lookup, insert}

abbrev pub max_nodes : ℕ
max_nodes = 512

pub record AStarNode : Type 0 where
  pub x : ℕ
  pub y : ℕ
  pub f : ℕ
  pub parent : Option ℕ
  pub is_open : Bool

pub record AStarNodes : Type 0 where
  pub nodes : List AStarNode
  pub node_table : List (ℕ × ℕ)
  pub closed_nodes : ℤ

-- `(x << 16) | y` of coordinates below 2 ^ 16: the bits are disjoint, so `|` is a sum.
abbrev pub table_key : ℕ → ℕ → ℕ
table_key x y = u32 (x * 2 ^ 16) + y

-- The constructor.
unfoldable pub new_nodes : ℕ → ℕ → AStarNodes
new_nodes x y = record {
  nodes = record { x = x; y = y; f = 0; parent = none; is_open = true } ∷ [];
  node_table = (table_key x y, 0) ∷ [];
  closed_nodes = pos 0;
}

unfoldable pub create_open_node : ℕ → ℕ → ℕ → ℕ → AStarNodes → AStarNodes × Option ℕ
create_open_node parent x y f s = if leb max_nodes (length s.nodes) then (s, none) else (
  record s {
    nodes = s.nodes ++ record { x = x; y = y; f = f; parent = some parent; is_open = true } ∷ [];
    node_table = insert (table_key x y) (length s.nodes) s.node_table;
  },
  some (length s.nodes),
)

-- The loop of `getBestNode` from an index on, with `best_node_f` and `best_node`.
unfoldable pub best_from : ℕ → List AStarNode → ℕ → Option ℕ → Option ℕ
best_from i [] best_f best = best
best_from i (n ∷ rest) best_f best = elim (n.is_open && ltb n.f best_f) [
  | true ↦ best_from (suc i) rest n.f (some i)
  | false ↦ best_from (suc i) rest best_f best
]

abbrev pub int32_max : ℕ
int32_max = 2 ^ 31 - 1

unfoldable pub get_best_node : AStarNodes → Option ℕ
get_best_node s = best_from 0 s.nodes int32_max none

abbrev pub set_open : ℕ → Bool → List AStarNode → List AStarNode
set_open i b [] = []
set_open zero b (n ∷ rest) = record n { is_open = b } ∷ rest
set_open (suc i) b (n ∷ rest) = n ∷ set_open i b rest

abbrev pub is_open_at : ℕ → List AStarNode → Bool
is_open_at i [] = false
is_open_at zero (n ∷ rest) = n.is_open
is_open_at (suc i) (n ∷ rest) = is_open_at i rest

unfoldable pub close_node : ℕ → AStarNodes → AStarNodes
close_node i s = record s {
  nodes = set_open i false s.nodes;
  closed_nodes = s.closed_nodes +ℤ pos 1;
}

unfoldable pub open_node : ℕ → AStarNodes → AStarNodes
open_node i s =
    if is_open_at i s.nodes
    then s
    else record s { nodes = set_open i true s.nodes; closed_nodes = s.closed_nodes -ℤ pos 1 }

-- `neighborNode->f = newf; neighborNode->parent = n;`
abbrev pub set_cost : ℕ → ℕ → ℕ → List AStarNode → List AStarNode
set_cost i parent f [] = []
set_cost zero parent f (n ∷ rest) = record n { f = f; parent = some parent } ∷ rest
set_cost (suc i) parent f (n ∷ rest) = n ∷ set_cost i parent f rest

abbrev pub cost_at : ℕ → List AStarNode → ℕ
cost_at i [] = 0
cost_at zero (n ∷ rest) = n.f
cost_at (suc i) (n ∷ rest) = cost_at i rest

-- A way to a node that is there already: it counts if it is cheaper.
unfoldable pub improve : ℕ → ℕ → ℕ → AStarNodes → AStarNodes
unfolding open_node
improve i parent f s =
    if leb (cost_at i s.nodes) f
    then s
    else open_node i (record s { nodes = set_cost i parent f s.nodes })

unfoldable pub get_node_by_position : ℕ → ℕ → AStarNodes → Option ℕ
get_node_by_position x y s = lookup (table_key x y) s.node_table
