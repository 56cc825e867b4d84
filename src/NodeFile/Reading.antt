-- ===== src/NodeFile/Reading.antt =====
-- src/fileloader.cpp: a file that is in the format is read as what it says.
use ot_tibia_teste.Common.{
  ℕ, ◌≡◌, refl, ◌∙◌, List, [], ◌∷◌, ◌++◌, Option, none, some, leb, Bool-cases, inl, inr,
}
use ot_tibia_teste.NodeFile.{
  Node, Nodes, node, nil, cons, Frame, close, open_child, add_child, new_frame, other, node_char,
  parse, get_props,
}
use ot_tibia_teste.NodeFile.Format.{
  Tree, Trees, tree, leaf, grow, escaped, print, print_all, read_tree, read_all, node_char-other,
}

other_step :
    (b : ℕ) (rest : List ℕ) (stack : List Frame) (root : Option Node)
    → node_char b ≡ other
    → parse (b ∷ rest) stack root ≡ parse rest stack root
unfolding parse
other_step b [] stack root e = rw (e, parse) refl
other_step b (c ∷ rest) stack root e = rw (e, parse) refl

end_step :
    (rest : List ℕ) (f g : Frame) (more : List Frame) (root : Option Node)
    → parse (255 ∷ rest) (f ∷ g ∷ more) root
      ≡ parse rest (add_child g (close f (255 ∷ rest)) ∷ more) root
unfolding parse
end_step [] f g more root = refl
end_step (c ∷ rest) f g more root = refl

pub last_step :
    (f : Frame) (root : Option Node) → parse (255 ∷ []) (f ∷ []) root ≡ some (close f (255 ∷ []))
unfolding parse
last_step f root = refl

pub parse-escaped :
    (props next : List ℕ) (stack : List Frame) (root : Option Node)
    → parse (escaped props ++ next) stack root ≡ parse next stack root
unfolding escaped parse
parse-escaped [] next stack root = refl
parse-escaped (b ∷ props) next stack root = elim (Bool-cases (leb 253 b)) [
  | inl special ↦ rw special (parse-escaped props next stack root)
  | inr plain ↦ rw plain (
      other_step b (escaped props ++ next) stack root (node_char-other b plain)
      ∙ parse-escaped props next stack root)
]

mutual
  unfolding print print_all read_tree read_all parse

  parse-print :
      (t : Tree) (next : List ℕ) (f : Frame) (below : List Frame) (root : Option Node)
      → parse (print t next) (f ∷ below) root
        ≡ parse next (add_child (open_child f (print t next)) (read_tree t next) ∷ below) root
  parse-print (tree type props children) next f below root =
      let parent = open_child f (print (tree type props children) next) in
      let child = new_frame type (escaped props ++ print_all children (255 ∷ next)) in
      parse-escaped props (print_all children (255 ∷ next)) (child ∷ parent ∷ below) root
      ∙ parse-print_all children (255 ∷ next) child (parent ∷ below) root
      ∙ end_step next (read_all children (255 ∷ next) child) parent below root

  pub parse-print_all :
      (ts : Trees) (next : List ℕ) (f : Frame) (below : List Frame) (root : Option Node)
      → parse (print_all ts next) (f ∷ below) root ≡ parse next (read_all ts next f ∷ below) root
  parse-print_all leaf next f below root = refl
  parse-print_all (grow t ts) next f below root =
      let after = print_all ts next in
      parse-print t after f below root
      ∙ parse-print_all ts next (add_child (open_child f (print t after)) (read_tree t after)) below
          root

-- What a node says.
abbrev pub props_or_nil : Option (List ℕ) → List ℕ
props_or_nil none = []
props_or_nil (some props) = props

unfoldable mutual
  unfolding get_props

  pub contents : Node → Tree
  contents (node type props_begin props_end children) =
      tree type (props_or_nil (get_props (node type props_begin props_end children)))
        (contents_all children)

  pub contents_all : Nodes → Trees
  contents_all nil = leaf
  contents_all (cons n ns) = grow (contents n) (contents_all ns)
