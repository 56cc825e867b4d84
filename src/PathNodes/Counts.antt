-- ===== src/PathNodes/Counts.antt =====
-- src/map.cpp: `closedNodes` is the number of closed nodes, and the nodes stay within their array.
use ot_tibia_teste.Common.{
  ℕ, zero, suc, ◌≤◌, ◌<◌, ◌≡◌, refl, inl, inr, List, [], ◌∷◌, ◌++◌, none, some, Bool, true, false,
  leb, if◌then◌else◌, arith, All, Bool-cases, Option-cases, get_elem?, length, length-append,
}
use ot_tibia_teste.Common.Int.{pos, ◌+ℤ◌, ◌-ℤ◌}
use ot_tibia_teste.Common.Maps.{lookup, insert}
use ot_tibia_teste.PathNodes.{
  AStarNode, AStarNodes, max_nodes, new_nodes, create_open_node, set_cost, cost_at, improve,
  get_best_node, set_open, is_open_at, close_node, open_node, get_node_by_position, table_key,
}
use ot_tibia_teste.PathNodes.Best.{get_best_node_lem}

-- What the search does with the nodes: it makes one, it finds a cheaper way to the one of a
-- position, which opens it again, and it closes the best one.
pub data Action : Type 0 where
  make : ℕ → ℕ → ℕ → ℕ → Action
  reopen : ℕ → ℕ → ℕ → ℕ → Action
  close_best : Action

unfoldable pub act : AStarNodes → Action → AStarNodes
act s (make parent x y f) = (create_open_node parent x y f s).0
act s (reopen parent x y f) = elim (get_node_by_position x y s) [
  | none ↦ s
  | some i ↦ improve i parent f s
]
act s close_best = elim (get_best_node s) [ none ↦ s | some i ↦ close_node i s ]

unfoldable pub act_all : AStarNodes → List Action → AStarNodes
act_all s [] = s
act_all s (a ∷ rest) = act_all (act s a) rest

abbrev pub closed : List AStarNode → ℕ
closed [] = 0
closed (n ∷ rest) = if n.is_open then closed rest else suc (closed rest)

abbrev pub IsIndex : ℕ → ℕ × ℕ → Type 0
IsIndex bound e = e.1 < bound

-- The count is right, the array is not left, and the table leads to nodes.
abbrev pub IsSound : AStarNodes → Type 0
IsSound s =
    (s.closed_nodes ≡ pos (closed s.nodes))
    × (length s.nodes ≤ max_nodes)
    × All (IsIndex (length s.nodes)) s.node_table

length-set_open : (i : ℕ) (b : Bool) (l : List AStarNode) → length (set_open i b l) ≡ length l
length-set_open i b [] = refl
length-set_open zero b (n ∷ rest) = refl
length-set_open (suc i) b (n ∷ rest) = omega (arith, length-set_open i b rest)

closed-open :
    (i : ℕ) (l : List AStarNode)
    → i < length l
    → is_open_at i l ≡ false
    → suc (closed (set_open i true l)) ≡ closed l
closed-open i [] less h = absurd (omega arith)
closed-open zero (n ∷ rest) less h = ground arith
closed-open (suc i) (n ∷ rest) less h = ground (arith, closed-open i rest)

closed-close :
    (i : ℕ) (l : List AStarNode)
    → is_open_at i l ≡ true
    → closed (set_open i false l) ≡ suc (closed l)
closed-close i [] h = ground arith
closed-close zero (n ∷ rest) h = ground arith
closed-close (suc i) (n ∷ rest) h = ground (arith, closed-close i rest)

closed-append :
    (l : List AStarNode) (n : AStarNode) → n.is_open ≡ true → closed (l ++ n ∷ []) ≡ closed l
closed-append [] n h = ground arith
closed-append (m ∷ rest) n h = ground (arith, closed-append rest n h)

best_open :
    (l : List AStarNode) (d : ℕ) (n : AStarNode)
    → get_elem? l d ≡ some n
    → n.is_open ≡ true
    → is_open_at d l ≡ true
best_open [] d n e h = absurd (ground arith)
best_open (m ∷ rest) zero n e h = ground arith
best_open (m ∷ rest) (suc d) n e h = best_open rest d n e h

widen : (a b : ℕ) (t : List (ℕ × ℕ)) → a ≤ b → All (IsIndex a) t → All (IsIndex b) t
widen a b [] le h = tt
widen a b (e ∷ t) le h = (omega (arith, h.0), widen a b t le h.1)

table_grows :
    (a b key i : ℕ) (t : List (ℕ × ℕ))
    → a ≤ b
    → i < b
    → All (IsIndex a) t
    → All (IsIndex b) (insert key i t)
unfolding insert
table_grows a b key i [] le less h = (less, tt)
table_grows a b key i (e ∷ t) le less h =
    let wide = widen a b t le h.1 in
    let first : e.1 < b = omega (arith, h.0) in ground (arith, table_grows a b key i t le less h.1)

table_leads :
    (bound key i : ℕ) (t : List (ℕ × ℕ)) → All (IsIndex bound) t → lookup key t ≡ some i → i < bound
unfolding lookup
table_leads bound key i [] h e = absurd (ground arith)
table_leads bound key i (u ∷ t) h e = ground (arith, table_leads bound key i t)

make-IsSound :
    (parent x y f : ℕ) (s : AStarNodes) → IsSound s → IsSound (create_open_node parent x y f s).0
unfolding create_open_node
make-IsSound parent x y f s (count, few, table) =
    let n : AStarNode = record { x = x; y = y; f = f; parent = some parent; is_open = true } in
    let more : length (s.nodes ++ n ∷ []) ≡ suc (length s.nodes) =
      omega (arith, length-append s.nodes (n ∷ [])) in
    elim (Bool-cases (leb max_nodes (length s.nodes))) [
      | inl full ↦ rw full (count, few, table)
      | inr room ↦
          rw (room, more, closed-append s.nodes n refl)
            (
              count,
              ground arith,
              table_grows (length s.nodes) (suc (length s.nodes)) (table_key x y) (length s.nodes)
                  s.node_table (omega arith) (omega arith) table,
            )
    ]

pos_up : (n : ℕ) → pos n +ℤ pos 1 ≡ pos (suc n)
unfolding ◌+ℤ◌
pos_up n = ground arith

pos_down : (n : ℕ) → pos (suc n) -ℤ pos 1 ≡ pos n
unfolding ◌-ℤ◌
pos_down n = ground arith

open_node-IsSound :
    (i : ℕ) (s : AStarNodes) → i < length s.nodes → IsSound s → IsSound (open_node i s)
unfolding open_node
open_node-IsSound i s less (count, few, table) = elim (Bool-cases (is_open_at i s.nodes)) [
  | inl e ↦ rw e (count, few, table)
  | inr e ↦
      rw (e, length-set_open i true s.nodes, count, ← closed-open i s.nodes less e)
        (pos_down (closed (set_open i true s.nodes)), few, table)
]

close_node-IsSound :
    (i : ℕ) (s : AStarNodes) → is_open_at i s.nodes ≡ true → IsSound s → IsSound (close_node i s)
unfolding close_node
close_node-IsSound i s opened (count, few, table) =
    rw (length-set_open i false s.nodes, count, closed-close i s.nodes opened)
      (pos_up (closed s.nodes), few, table)

length-set_cost : (i parent f : ℕ) (l : List AStarNode) → length (set_cost i parent f l) ≡ length l
length-set_cost i parent f [] = refl
length-set_cost zero parent f (n ∷ rest) = refl
length-set_cost (suc i) parent f (n ∷ rest) = omega (arith, length-set_cost i parent f rest)

closed-set_cost : (i parent f : ℕ) (l : List AStarNode) → closed (set_cost i parent f l) ≡ closed l
closed-set_cost i parent f [] = refl
closed-set_cost zero parent f (n ∷ rest) = refl
closed-set_cost (suc i) parent f (n ∷ rest) = ground (arith, closed-set_cost i parent f rest)

improve-IsSound :
    (i parent f : ℕ) (s : AStarNodes)
    → i < length s.nodes
    → IsSound s
    → IsSound (improve i parent f s)
unfolding improve
improve-IsSound i parent f s less (count, few, table) =
    elim (Bool-cases (leb (cost_at i s.nodes) f)) [
      | inl dear ↦ rw dear (count, few, table)
      | inr cheap ↦ rw cheap (
          open_node-IsSound i (record s { nodes = set_cost i parent f s.nodes })
            (rw (length-set_cost i parent f s.nodes) less)
            (rw (length-set_cost i parent f s.nodes, closed-set_cost i parent f s.nodes)
              (count, few, table)))
    ]

act-IsSound : (s : AStarNodes) (a : Action) → IsSound s → IsSound (act s a)
unfolding act get_node_by_position
act-IsSound s (make parent x y f) h = make-IsSound parent x y f s h
act-IsSound s (reopen parent x y f) h = elim (Option-cases (lookup (table_key x y) s.node_table)) [
  | inl e ↦ rw (e, act) h
  | inr (i, e) ↦
      rw (e, act)
        (improve-IsSound i parent f s (table_leads _ (table_key x y) i s.node_table h.2 e) h)
]
act-IsSound s close_best h = elim (get_best_node_lem s) [
  | inl (e, all) ↦ rw (e, act) h
  | inr (d, e, (n, at, opened, less, best)) ↦
      rw (e, act) (close_node-IsSound d s (best_open s.nodes d n at opened) h)
]

act_all-IsSound : (acts : List Action) (s : AStarNodes) → IsSound s → IsSound (act_all s acts)
unfolding act_all
act_all-IsSound [] s h = h
act_all-IsSound (a ∷ rest) s h = act_all-IsSound rest (act s a) (act-IsSound s a h)

-- Whatever a search makes, opens again and closes, from its first node on: `closedNodes` is the number
-- of the closed nodes, there are 512 nodes at most, and positions lead to nodes that are there.
pub search-IsSound : (x y : ℕ) (acts : List Action) → IsSound (act_all (new_nodes x y) acts)
unfolding new_nodes
search-IsSound x y acts =
    act_all-IsSound acts (new_nodes x y) (refl, omega arith, (omega arith, tt))
