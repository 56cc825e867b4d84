-- ===== src/NodeFile/Contents.antt =====
-- src/fileloader.cpp: what the nodes that are read say.
use ot_tibia_teste.Common.{
  ℕ, ◌-◌, ◌<◌, ◌≡◌, refl, ap, sym, ◌∙◌, List, [], ◌∷◌, ◌++◌, Option, none, some, true, false, leb,
  ◌==◌, if◌then◌else◌, length, take, arith, length-append, Bool-cases, inl, inr,
}
use ot_tibia_teste.NodeFile.{
  Node, Nodes, node, nil, cons, Frame, snoc, props_end_at, open_child, add_child, new_frame,
  get_props, load_tree, is_accepted,
}
use ot_tibia_teste.NodeFile.Format.{
  Tree, Trees, tree, leaf, grow, escaped, print, print_all, read_tree, read_all, unescape-escaped,
}
use ot_tibia_teste.NodeFile.Reading.{
  contents, contents_all, props_or_nil, parse-escaped, parse-print_all, last_step,
}

take-append : (s next : List ℕ) → take (length s) (s ++ next) ≡ s
take-append [] next = refl
take-append (b ∷ s) next = rw (take-append s next)

escaped-nil : (props : List ℕ) → (length (escaped props) == 0) ≡ true → [] ≡ props
unfolding escaped
escaped-nil [] h = refl
escaped-nil (b ∷ props) h = absurd (ground arith)

-- The properties of a node are those that were written.
get_props-escaped :
    (type : ℕ) (props next : List ℕ) (children : Nodes)
    → props_or_nil (get_props (node type (escaped props ++ next) (some next) children)) ≡ props
unfolding get_props
get_props-escaped type props next children =
    let size : length (escaped props ++ next) - length next ≡ length (escaped props) =
      omega (arith, length-append (escaped props) next) in
    elim (Bool-cases (length (escaped props) == 0)) [
      | inl empty ↦ rw (size, empty, if◌then◌else◌) (escaped-nil props empty)
      | inr full ↦
          rw (size, full, if◌then◌else◌, take-append (escaped props) next) (unescape-escaped props)
    ]

snoc-end :
    (ms : Nodes) (n : Node) (e : Option (List ℕ)) (it : List ℕ) → props_end_at (snoc ms n) e it ≡ e
unfolding snoc
snoc-end nil n e it = refl
snoc-end (cons m ms) n e it = refl

read_all-type : (ts : Trees) (next : List ℕ) (f : Frame) → (read_all ts next f).type ≡ f.type
unfolding read_all
read_all-type leaf next f = refl
read_all-type (grow t ts) next f =
    read_all-type ts next
      (add_child (open_child f (print t (print_all ts next))) (read_tree t (print_all ts next)))

read_all-begin :
    (ts : Trees) (next : List ℕ) (f : Frame) → (read_all ts next f).props_begin ≡ f.props_begin
unfolding read_all
read_all-begin leaf next f = refl
read_all-begin (grow t ts) next f =
    read_all-begin ts next
      (add_child (open_child f (print t (print_all ts next))) (read_tree t (print_all ts next)))

-- The properties end where the first child starts, or at the end of the node.
read_all-end :
    (ts : Trees) (next : List ℕ) (f : Frame)
    → props_end_at (read_all ts next f).children (read_all ts next f).props_end next
      ≡ props_end_at f.children f.props_end (print_all ts next)
unfolding read_all print_all
read_all-end leaf next f = refl
read_all-end (grow t ts) next f =
    let after = print_all ts next in
    let n = read_tree t after in
    read_all-end ts next (add_child (open_child f (print t after)) n)
    ∙ snoc-end f.children n (props_end_at f.children f.props_end (print t after)) after

append_trees : Trees → Trees → Trees
append_trees leaf us = us
append_trees (grow t ts) us = grow t (append_trees ts us)

append-snoc :
    (ms : Nodes) (n : Node) (us : Trees)
    → append_trees (contents_all (snoc ms n)) us
      ≡ append_trees (contents_all ms) (grow (contents n) us)
unfolding snoc contents_all append_trees
append-snoc nil n us = refl
append-snoc (cons m ms) n us = ap (grow (contents m)) (append-snoc ms n us)

append-leaf : (ts : Trees) → append_trees ts leaf ≡ ts
unfolding append_trees
append-leaf leaf = refl
append-leaf (grow t ts) = ap (grow t) (append-leaf ts)

mutual
  unfolding read_tree read_all contents append_trees contents_all

  contents-read_tree : (t : Tree) (next : List ℕ) → contents (read_tree t next) ≡ t
  contents-read_tree (tree type props children) next =
      let after = print_all children (255 ∷ next) in
      let f0 = new_frame type (escaped props ++ after) in
      let f = read_all children (255 ∷ next) f0 in
      let begins = read_all-begin children (255 ∷ next) f0 in
      let ends = read_all-end children (255 ∷ next) f0 in
      let types = read_all-type children (255 ∷ next) f0 in
      let kids = contents-read_all children (255 ∷ next) f0 in
      (λ i.
        tree f.type (props_or_nil (get_props (node f.type (begins i) (ends i) f.children)))
          (contents_all f.children))
      ∙ (λ i. tree (types i) (get_props-escaped f.type props after f.children i) (kids i))

  contents-read_all :
      (ts : Trees) (next : List ℕ) (f : Frame)
      → contents_all (read_all ts next f).children ≡ append_trees (contents_all f.children) ts
  contents-read_all leaf next f = sym (append-leaf (contents_all f.children))
  contents-read_all (grow t ts) next f =
      let after = print_all ts next in
      let n = read_tree t after in
      contents-read_all ts next (add_child (open_child f (print t after)) n)
      ∙ append-snoc f.children n ts
      ∙ ap (λ u. append_trees (contents_all f.children) (grow u ts)) (contents-read_tree t after)

-- A file of the accepted identifier and a tree, with a byte at least of properties or children, is
-- loaded without an error, and the nodes have the types, the properties and the children of the tree,
-- whatever bytes the properties hold.
pub load_tree-print :
    (a b c d type : ℕ) (props : List ℕ) (children : Trees) (accepted : List ℕ)
    → is_accepted (a ∷ b ∷ c ∷ d ∷ []) accepted ≡ true
    → 1 < length (escaped props ++ print_all children (255 ∷ []))
    → (n : Node) × (load_tree accepted (a ∷ b ∷ c ∷ d ∷ print (tree type props children) [])
        ≡ some n)
      × (contents n ≡ tree type props children)
unfolding load_tree print read_tree
load_tree-print a b c d type props children accepted same long =
    let rest = escaped props ++ print_all children (255 ∷ []) in
    let f0 = new_frame type rest in
    let enough : leb (length rest) 1 ≡ false = ground arith in
    (
      read_tree (tree type props children) [],
      rw (enough, same)
          (parse-escaped props (print_all children (255 ∷ [])) (f0 ∷ []) none
            ∙ parse-print_all children (255 ∷ []) f0 [] none
            ∙ last_step (read_all children (255 ∷ []) f0) none),
      contents-read_tree (tree type props children) [],
    )
