-- ===== src/NodeFile.antt =====
-- src/fileloader.h, src/fileloader.cpp: the tree of nodes in a file, of which items and maps are read. An
-- iterator is what is left of the file from there on; an exception is `none`.
mod Format
mod Reading
mod Contents
mod Examples
use ot_tibia_teste.Common.{
  ℕ, ◌-◌, List, [], ◌∷◌, Option, none, some, Bool, true, false, not, ◌&&◌, ◌||◌, leb, ◌==◌,
  if◌then◌else◌, length, take,
}

-- `OTB::Node`: the type, the iterators of the properties and the children.
mutual
  pub data Node : Type 0 where
    node : ℕ → List ℕ → Option (List ℕ) → Nodes → Node

  pub data Nodes : Type 0 where
    nil : Nodes
    cons : Node → Nodes → Nodes

-- A node on the stack, whose children so far are complete; `props_end` is `none` before it is written.
pub record Frame : Type 0 where
  pub type : ℕ
  pub props_begin : List ℕ
  pub props_end : Option (List ℕ)
  pub children : Nodes

unfoldable pub snoc : Nodes → Node → Nodes
snoc nil n = cons n nil
snoc (cons m ms) n = cons m (snoc ms n)

-- `propsEnd` after a child starts or the node ends at `it`.
abbrev pub props_end_at : Nodes → Option (List ℕ) → List ℕ → Option (List ℕ)
props_end_at nil props_end it = some it
props_end_at (cons m ms) props_end it = props_end

abbrev pub close : Frame → List ℕ → Node
close f it = node f.type f.props_begin (props_end_at f.children f.props_end it) f.children

abbrev pub open_child : Frame → List ℕ → Frame
open_child f it = record f { props_end = props_end_at f.children f.props_end it }

abbrev pub add_child : Frame → Node → Frame
add_child f n = record f { children = snoc f.children n }

abbrev pub new_frame : ℕ → List ℕ → Frame
new_frame type it = record { type = type; props_begin = it; props_end = none; children = nil }

-- `Node::NodeChar`, and all other bytes.
pub data NodeChar : Type 0 where
  escape start end other : NodeChar

abbrev pub node_char : ℕ → NodeChar
node_char b =
    if b == 254 then start else if b == 255 then end else if b == 253 then escape else other

-- The loop of `Loader::parseTree`, with the stack and the root once it is complete.
unfoldable pub parse : List ℕ → List Frame → Option Node → Option Node
unfolding snoc
parse [] [] root = root
parse [] (f ∷ stack) root = none
parse (b ∷ []) stack root = elim (node_char b) [
  | start ↦ none
  | end ↦ elim stack [
    | [] ↦ none
    | f ∷ below ↦ elim below [ [] ↦ some (close f (b ∷ [])) | g ∷ more ↦ none ]
  ]
  | escape ↦ none
  | other ↦ parse [] stack root
]
parse (b ∷ c ∷ rest) stack root = elim (node_char b) [
  | start ↦ elim stack [
    | [] ↦ none
    | f ∷ below ↦ parse rest (new_frame c rest ∷ open_child f (b ∷ c ∷ rest) ∷ below) root
  ]
  | end ↦ elim stack [
    | [] ↦ none
    | f ∷ below ↦ elim below [
      | [] ↦ parse (c ∷ rest) [] (some (close f (b ∷ c ∷ rest)))
      | g ∷ more ↦ parse (c ∷ rest) (add_child g (close f (b ∷ c ∷ rest)) ∷ more) root
    ]
  ]
  | escape ↦ parse rest stack root
  | other ↦ parse (c ∷ rest) stack root
]

-- The same identifier, or the wildcard.
unfoldable pub is_accepted : List ℕ → List ℕ → Bool
is_accepted (a ∷ b ∷ c ∷ d ∷ []) (e ∷ f ∷ g ∷ h ∷ []) =
    (a == e && b == f && c == g && d == h) || (a == 0 && b == 0 && c == 0 && d == 0)
is_accepted found accepted = false

-- `Loader::Loader` and `Loader::parseTree`
unfoldable pub load_tree : List ℕ → List ℕ → Option Node
unfolding is_accepted
load_tree accepted (a ∷ b ∷ c ∷ d ∷ s ∷ type ∷ rest) =
    if leb (length rest) 1
    then none
    else if not (is_accepted (a ∷ b ∷ c ∷ d ∷ []) accepted)
    then none
    else if s == 254
    then parse rest (new_frame type rest ∷ []) none
    else none
load_tree accepted file = none

-- The copy of `Loader::getProps`: an escape that is not escaped itself is left out.
unfoldable pub unescape : Bool → List ℕ → List ℕ
unescape last_escaped [] = []
unescape last_escaped (b ∷ s) =
    let rest = unescape (b == 253 && not last_escaped) s in
    if b == 253 && not last_escaped then rest else b ∷ rest

-- `Loader::getProps`; `none` is the result false.
unfoldable pub get_props : Node → Option (List ℕ)
unfolding unescape
get_props (node type props_begin none children) = none
get_props (node type props_begin (some props_end) children) =
    if length props_begin - length props_end == 0
    then none
    else some (unescape false (take (length props_begin - length props_end) props_begin))
