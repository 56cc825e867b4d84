-- ===== src/WildcardTree.antt =====
-- src/wildcardtree.h and src/wildcardtree.cpp: the tree of the names of the players online.
-- The pointer walks become recursion along the text; a node that is written through a pointer is put
-- back by `update_child`. Nothing depends on the order of a map's entries: `begin()` is read of maps
-- with one entry only.
pub mod Laws
pub mod Pruned
pub mod Remove
pub mod Find
mod Examples
use ot_tibia_teste.Common.{
  ℕ, List, [], ◌∷◌, ◌++◌, Option, none, some, Bool, true, false, not, ◌&&◌, ◌==◌, if◌then◌else◌,
  ◌>>=◌,
}

mutual
  pub data Node : Type 0 where
    node : Bool → Children → Node

  pub data Children : Type 0 where
    nil : Children
    cons : ℕ → Node → Children → Children

abbrev pub breakpoint : Node → Bool
breakpoint (node b cs) = b

abbrev pub children : Node → Children
children (node b cs) = cs

pub get_child : ℕ → Children → Option Node
get_child c nil = none
get_child c (cons d n rest) = if d == c then some n else get_child c rest

pub update_child : ℕ → Node → Children → Children
update_child c new nil = nil
update_child c new (cons d n rest) =
    let other = update_child c new rest in if d == c then cons d new rest else cons d n other

-- `children.erase`
pub erase_child : ℕ → Children → Children
erase_child c nil = nil
erase_child c (cons d n rest) =
    let other = erase_child c rest in if d == c then rest else cons d n other

-- The branch of `addChild` for a child that is there.
pub mark_child : ℕ → Bool → Node → Children → Children
mark_child c mark (node b cs) all = if mark && not b then update_child c (node true cs) all else all

pub add_child : ℕ → Bool → Children → Children
unfolding mark_child
add_child c mark cs = elim (get_child c cs) [
  | none ↦ cons c (node mark nil) cs
  | some n ↦ mark_child c mark n cs
]

-- `none` for the empty text, of which the code would read a character before the first.
pub insert : List ℕ → Node → Option Node
insert [] t = none
insert (c ∷ []) (node b cs) = some (node b (add_child c true cs))
insert (c ∷ d ∷ s) (node b cs) = do
  child ← get_child c (add_child c false cs)
  child' ← insert (d ∷ s) child
  some (node b (update_child c child' (add_child c false cs)))

pub is_empty : Children → Bool
is_empty nil = true
is_empty (cons c n rest) = false

-- A node that the second loop of `remove` takes out.
pub is_dead : Node → Bool
is_dead (node b cs) = is_empty cs && not b

-- The nodes on the way back: a dead child is erased, else the loop has ended and what was changed
-- below stays.
pub put_back : ℕ → Node → Children → Children
unfolding is_dead is_empty
put_back c child' cs = if is_dead child' then erase_child c cs else update_child c child' cs

-- The node below which the text is walked, or `none` where a child is missing.
pub remove_path : List ℕ → Node → Option Node
unfolding put_back
remove_path [] (node b cs) = some (node false cs)
remove_path (c ∷ s) (node b cs) = do
  child ← get_child c cs
  child' ← remove_path s child
  some (node b (put_back c child' cs))

pub remove : List ℕ → Node → Node
remove s t = elim (remove_path s t) [ none ↦ t | some t' ↦ t' ]

-- RETURNVALUE_NOERROR, RETURNVALUE_NAMEISTOOAMBIGUOUS and
-- RETURNVALUE_PLAYERWITHTHISNAMEISNOTONLINE; the first two with the text in `result`.
pub data Answer : Type 0 where
  found too_ambiguous : List ℕ → Answer
  not_online : Answer

-- The last loop of `findOne`.
mutual
  pub descend : Node → List ℕ → Answer
  descend (node b cs) result = descend_children cs b result

  pub descend_children : Children → Bool → List ℕ → Answer
  descend_children nil b result = found result
  descend_children (cons c n nil) b result =
      let rest = descend n (result ++ c ∷ []) in if b then too_ambiguous result else rest
  descend_children (cons c n (cons d k rest)) b result = too_ambiguous result

pub find_from : List ℕ → Node → List ℕ → Answer
find_from [] t query = descend t query
find_from (c ∷ s) (node b cs) query = elim (get_child c cs) [
  | none ↦ not_online
  | some n ↦ find_from s n query
]

pub find_one : Node → List ℕ → Answer
unfolding find_from
find_one t query = find_from query t query
