-- ===== src/WildcardTree/Laws.antt =====
-- src/wildcardtree.cpp: the names that a tree holds after `insert` and `remove`.
use ot_tibia_teste.Common.{
  ℕ, ◌≡◌, refl, inl, inr, List, [], ◌∷◌, Option, none, some, Bool, true, false, ◌&&◌, ◌==◌,
  if◌then◌else◌, arith, Option-cases,
}
use ot_tibia_teste.WildcardTree.{
  Node, Children, node, nil, cons, children, get_child, update_child, mark_child, add_child, insert,
}

-- A text is a name of a tree if the node at the end of its path is a breakpoint.
unfoldable pub has : List ℕ → Node → Bool
has [] (node b cs) = b
has (c ∷ s) (node b cs) = elim (get_child c cs) [ none ↦ false | some n ↦ has s n ]

-- Equality of texts.
unfoldable pub str_eqb : List ℕ → List ℕ → Bool
str_eqb [] [] = true
str_eqb [] (d ∷ t) = false
str_eqb (c ∷ s) [] = false
str_eqb (c ∷ s) (d ∷ t) = let rest = str_eqb s t in if c == d then rest else false

pub get_child-update :
    (c d : ℕ) (new : Node) (cs : Children)
    → get_child d (update_child c new cs) ≡ (
        if c == d
        then elim (get_child c cs) [ none ↦ none | some n ↦ some new ]
        else get_child d cs)
unfolding get_child update_child
get_child-update c d new nil = ground arith
get_child-update c d new (cons e n rest) = ground (arith, get_child-update c d new rest)

abbrev pub mark_node : Bool → Node → Node
mark_node true n = node true (children n)
mark_node false n = n

-- The child that `addChild` returns.
abbrev pub added : Bool → Option Node → Node
added mark none = node mark nil
added mark (some n) = mark_node mark n

mark_child-get :
    (c d : ℕ) (mark : Bool) (n : Node) (cs : Children)
    → get_child c cs ≡ some n
    → get_child d (mark_child c mark n cs)
      ≡ (if c == d then some (mark_node mark n) else get_child d cs)
unfolding mark_child
mark_child-get c d true (node true ks) cs e = ground arith
mark_child-get c d true (node false ks) cs e =
    ground (arith, get_child-update c d (node true ks) cs)
mark_child-get c d false (node b ks) cs e = ground arith

pub get_child-add :
    (c d : ℕ) (mark : Bool) (cs : Children)
    → get_child d (add_child c mark cs)
      ≡ (if c == d then some (added mark (get_child c cs)) else get_child d cs)
unfolding add_child get_child
get_child-add c d mark cs = elim (Option-cases (get_child c cs)) [
  | inl e ↦ rw (e, add_child) refl
  | inr (n, e) ↦ rw (e, add_child) (mark_child-get c d mark n cs e)
]

-- A branch of the tree, as `has` reads it.
abbrev pub has_in : List ℕ → Option Node → Bool
has_in s none = false
has_in s (some n) = has s n

pub has-leaf : (s : List ℕ) → has s (node false nil) ≡ false
unfolding has get_child
has-leaf [] = refl
has-leaf (c ∷ s) = refl

-- The names of a node that `addChild` returned: those it had, and itself if it was marked.
has-added :
    (mark : Bool) (o : Option Node) (s : List ℕ)
    → has s (added mark o) ≡ (if mark && str_eqb [] s then true else has_in s o)
unfolding has str_eqb get_child
has-added true none [] = refl
has-added true none (c ∷ s) = refl
has-added true (some (node b cs)) [] = refl
has-added true (some (node b cs)) (c ∷ s) = refl
has-added false none s = has-leaf s
has-added false (some n) s = refl

pub has-cons :
    (c : ℕ) (s : List ℕ) (b : Bool) (cs : Children)
    → has (c ∷ s) (node b cs) ≡ has_in s (get_child c cs)
unfolding has
has-cons c s b cs = ground arith

add_child-names :
    (c : ℕ) (b : Bool) (cs : Children) (q : List ℕ)
    → has q (node b (add_child c true cs))
      ≡ (if str_eqb (c ∷ []) q then true else has q (node b cs))
unfolding str_eqb
add_child-names c b cs [] = unfold has in refl
add_child-names c b cs (d ∷ []) = ground (
  arith,
  has-cons d [] b (add_child c true cs),
  has-cons d [] b cs,
  get_child-add c d true cs,
  has-added true (get_child c cs) [],
)
add_child-names c b cs (d ∷ e ∷ q) = ground (
  arith,
  has-cons d (e ∷ q) b (add_child c true cs),
  has-cons d (e ∷ q) b cs,
  get_child-add c d true cs,
  has-added true (get_child c cs) (e ∷ q),
)

module _ (c : ℕ) (s : List ℕ) (b : Bool) (cs : Children) (new : Node) where
  update_child-names :
      ((q : List ℕ)
        → has q new ≡ (if str_eqb s q then true else has q (added false (get_child c cs))))
      → (q : List ℕ)
      → has q (node b (update_child c new (add_child c false cs)))
        ≡ (if str_eqb (c ∷ s) q then true else has q (node b cs))
  unfolding str_eqb
  update_child-names h [] = unfold has in refl
  update_child-names h (d ∷ q) = ground (
    arith,
    has-cons d q b (update_child c new (add_child c false cs)),
    has-cons d q b cs,
    get_child-update c d new (add_child c false cs),
    get_child-add c d false cs,
    get_child-add c c false cs,
    has-added false (get_child c cs) q,
    h q,
  )

pub insert-total :
    (s : List ℕ) (c : ℕ) (t : Node)
    → (t' : Node) × (insert (c ∷ s) t ≡ some t')
      × ((q : List ℕ) → has q t' ≡ (if str_eqb (c ∷ s) q then true else has q t))
unfolding insert
insert-total [] c (node b cs) = (node b (add_child c true cs), refl, add_child-names c b cs)
insert-total (d ∷ s) c (node b cs) =
    let child = added false (get_child c cs) in
    let (new, made, names) = insert-total s d child in
    let there : get_child c (add_child c false cs) ≡ some child =
      ground (arith, get_child-add c c false cs) in
    (
      node b (update_child c new (add_child c false cs)),
      rw (there, made) refl,
      update_child-names c (d ∷ s) b cs new names,
    )
