-- ===== src/NodeFile/Examples.antt =====
-- A file of two nodes, with a property that looks like the start of a node.
use ot_tibia_teste.Common.{ℕ, ◌<◌, ◌≡◌, refl, List, [], ◌∷◌, ◌++◌, none, some, true, length, arith}
use ot_tibia_teste.NodeFile.{Node, load_tree, is_accepted, parse}
use ot_tibia_teste.NodeFile.Format.{Trees, tree, leaf, grow, print, print_all, escaped}
use ot_tibia_teste.NodeFile.Reading.{contents}
use ot_tibia_teste.NodeFile.Contents.{load_tree-print}

abbrev town : Trees
town = grow (tree 14 (254 ∷ 3 ∷ []) leaf) leaf

town_bytes :
    print (tree 0 (1 ∷ 253 ∷ []) town) []
    ≡ 254 ∷ 0 ∷ 1 ∷ 253 ∷ 253 ∷ 254 ∷ 14 ∷ 253 ∷ 254 ∷ 3 ∷ 255 ∷ 255 ∷ []
unfolding print print_all escaped
town_bytes = refl

-- A file that ends within a node is refused.
cut_short :
    load_tree
      (b'O' ∷ b'T' ∷ b'B' ∷ b'M' ∷ [])
      (b'O' ∷ b'T' ∷ b'B' ∷ b'M' ∷ 254 ∷ 0 ∷ 1 ∷ 254 ∷ 14 ∷ 255 ∷ [])
    ≡ none
unfolding load_tree parse
cut_short = refl

abbrev anything : List ℕ
anything = b'O' ∷ b'T' ∷ b'B' ∷ b'M' ∷ []

town_accepted : is_accepted (0 ∷ 0 ∷ 0 ∷ 0 ∷ []) anything ≡ true
unfolding is_accepted
town_accepted = refl

town_long : 1 < length (escaped (1 ∷ 253 ∷ []) ++ print_all town (255 ∷ []))
unfolding escaped print_all
town_long = omega arith

load_tree-print_example :
    (n : Node) × (load_tree anything (0 ∷ 0 ∷ 0 ∷ 0 ∷ print (tree 0 (1 ∷ 253 ∷ []) town) [])
      ≡ some n)
    × (contents n ≡ tree 0 (1 ∷ 253 ∷ []) town)
load_tree-print_example =
    load_tree-print 0 0 0 0 0 (1 ∷ 253 ∷ []) town anything town_accepted town_long
