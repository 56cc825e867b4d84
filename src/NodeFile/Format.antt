-- ===== src/NodeFile/Format.antt =====
-- src/fileloader.h: the format of a file of nodes, as it is written by the editors of maps and items.
use ot_tibia_teste.Common.{ℕ, ◌≡◌, refl, List, [], ◌∷◌, ◌++◌, false, leb, if◌then◌else◌, arith}
use ot_tibia_teste.NodeFile.{
  Node, Frame, close, open_child, add_child, new_frame, other, node_char, unescape,
}

-- What a file says: a type, properties and children.
mutual
  pub data Tree : Type 0 where
    tree : ℕ → List ℕ → Trees → Tree

  pub data Trees : Type 0 where
    leaf : Trees
    grow : Tree → Trees → Trees

-- Properties, with an escape before each byte that has a meaning.
unfoldable pub escaped : List ℕ → List ℕ
escaped [] = []
escaped (b ∷ s) = let rest = escaped s in if leb 253 b then 253 ∷ b ∷ rest else b ∷ rest

-- A tree in front of what comes after it.
unfoldable mutual
  pub print : Tree → List ℕ → List ℕ
  print (tree type props children) next =
      254 ∷ type ∷ (escaped props ++ print_all children (255 ∷ next))

  pub print_all : Trees → List ℕ → List ℕ
  print_all leaf next = next
  print_all (grow t ts) next = print t (print_all ts next)

-- The node that is read, and the frame of its parent after it.
unfoldable mutual
  pub read_tree : Tree → List ℕ → Node
  read_tree (tree type props children) next =
      close
        (read_all children (255 ∷ next)
          (new_frame type (escaped props ++ print_all children (255 ∷ next))))
        (255 ∷ next)

  pub read_all : Trees → List ℕ → Frame → Frame
  read_all leaf next f = f
  read_all (grow t ts) next f =
      read_all ts next
        (add_child (open_child f (print t (print_all ts next))) (read_tree t (print_all ts next)))

pub unescape-escaped : (props : List ℕ) → unescape false (escaped props) ≡ props
unfolding unescape escaped
unescape-escaped [] = refl
unescape-escaped (b ∷ s) = ground (arith, unescape-escaped s)

pub node_char-other : (b : ℕ) → leb 253 b ≡ false → node_char b ≡ other
node_char-other b h = ground arith
