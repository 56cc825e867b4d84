-- ===== src/WildcardTree/Find.antt =====
-- src/wildcardtree.cpp: what `findOne` answers.
use mathlib.Core.List.{append-nil, append_assoc}
use ot_tibia_teste.Common.{
  ℕ, ◌≡◌, refl, sym, ap, ◌∙◌, ◌≢◌, inl, inr, List, [], ◌∷◌, ◌++◌, none, some, Bool, true, false,
  arith, Option-cases, Bool-cases,
}
use ot_tibia_teste.WildcardTree.{
  Node, Children, node, nil, cons, get_child, is_empty, is_dead, Answer, found, too_ambiguous,
  not_online, descend, descend_children, find_from, find_one,
}
use ot_tibia_teste.WildcardTree.Laws.{has, has-cons}
use ot_tibia_teste.WildcardTree.Pruned.{IsPruned, AllPruned, AllPruned-get}

-- The answer is right about the names that continue `s` in a tree: `found` gives the one there is
-- (with `acc` for `s`), `too_ambiguous` that there are two, `not_online` that there is none.
abbrev pub Meets : List ℕ → Node → List ℕ → Answer → Type 0
Meets s t acc (found x) =
    (rest : List ℕ) × (x ≡ acc ++ rest)
    × (has (s ++ rest) t ≡ true)
    × ((q : List ℕ) → has (s ++ q) t ≡ true → q ≡ rest)
Meets s t acc (too_ambiguous x) =
    (p : List ℕ) × (q : List ℕ) × (has (s ++ p) t ≡ true) × (has (s ++ q) t ≡ true) × (p ≢ q)
Meets s t acc not_online = (q : List ℕ) → has (s ++ q) t ≡ false

has-first :
    (c : ℕ) (s : List ℕ) (b : Bool) (n : Node) (rest : Children)
    → has (c ∷ s) (node b (cons c n rest)) ≡ has s n
unfolding has get_child
has-first c s b n rest = ground arith

mutual
  unfolding is_dead is_empty IsPruned AllPruned has

  -- A branch that is not idle leads to a name.
  has-some : (t : Node) → is_dead t ≡ false → IsPruned t → (s : List ℕ) × (has s t ≡ true)
  has-some (node b cs) alive h = has-some_below cs b alive h

  has-some_below :
      (cs : Children) (b : Bool)
      → is_dead (node b cs) ≡ false
      → AllPruned cs
      → (s : List ℕ) × (has s (node b cs) ≡ true)
  has-some_below cs true alive h = ([], refl)
  has-some_below nil false alive h = absurd (ground arith)
  has-some_below (cons c n rest) false alive h =
      let (s, e) = has-some n h.0 h.1 in (c ∷ s, has-first c s false n rest ∙ e)

-- The names below a node with one child and no name of its own.
module _ (c : ℕ) (n : Node) where
  only-child :
      (q : List ℕ)
      → has q (node false (cons c n nil)) ≡ true
      → (s : List ℕ) × (q ≡ c ∷ s) × (has s n ≡ true)
  unfolding has get_child
  only-child [] e = cc
  only-child (d ∷ q) e = (q, ground arith, ground arith)

  Meets-child :
      (acc : List ℕ) (a : Answer)
      → Meets [] n (acc ++ c ∷ []) a
      → Meets [] (node false (cons c n nil)) acc a
  Meets-child acc (found x) (rest, e, there, one) = (
    c ∷ rest,
    e ∙ append_assoc acc (c ∷ []) rest,
    has-first c rest false n nil ∙ there,
    λ q h. let (s, same, below) = only-child q h in same ∙ ap (λ r. c ∷ r) (one s below),
  )
  Meets-child acc (too_ambiguous x) (p, q, hp, hq, ne) =
      (c ∷ p, c ∷ q, has-first c p false n nil ∙ hp, has-first c q false n nil ∙ hq, λ e. ne (cc))
  Meets-child acc not_online h = λ q. elim (Bool-cases (has q (node false (cons c n nil)))) [
    | inl e ↦ let (s, same, below) = only-child q e in cc (h s)
    | inr e ↦ e
  ]

leaf-only : (q : List ℕ) → has q (node true nil) ≡ true → q ≡ []
unfolding has get_child
leaf-only [] e = refl
leaf-only (c ∷ q) e = cc

two-children :
    (c d : ℕ) (s q : List ℕ) (k : Node) (rest : Children)
    → get_child c (cons d k rest) ≡ none
    → c ∷ s ≢ d ∷ q
unfolding get_child
two-children c d s q k rest h e = ground arith

has-second :
    (c d : ℕ) (q : List ℕ) (b : Bool) (n k : Node) (rest : Children)
    → get_child c (cons d k rest) ≡ none
    → has q k ≡ true
    → has (d ∷ q) (node b (cons c n (cons d k rest))) ≡ true
unfolding has get_child
has-second c d q b n k rest h e = ground arith

mutual
  unfolding descend is_dead is_empty IsPruned AllPruned has get_child

  descend-Meets :
      (t : Node) (acc : List ℕ) → is_dead t ≡ false → IsPruned t → Meets [] t acc (descend t acc)
  descend-Meets (node b cs) acc alive h = descend_children-Meets cs b acc alive h

  descend_children-Meets :
      (cs : Children) (b : Bool) (acc : List ℕ)
      → is_dead (node b cs) ≡ false
      → AllPruned cs
      → Meets [] (node b cs) acc (descend_children cs b acc)
  descend_children-Meets nil false acc alive h = absurd (ground arith)
  descend_children-Meets nil true acc alive h = ([], sym (append-nil acc), refl, leaf-only)
  descend_children-Meets (cons c n nil) true acc alive h =
      let (s, e) = has-some n h.0 h.1 in ([], c ∷ s, refl, has-first c s true n nil ∙ e, λ q. cc)
  descend_children-Meets (cons c n nil) false acc alive h =
      Meets-child c n acc (descend n (acc ++ c ∷ [])) (descend-Meets n (acc ++ c ∷ []) h.0 h.1)
  descend_children-Meets (cons c n (cons d k rest)) b acc alive h =
      let (s, e) = has-some n h.0 h.1 in
      let (q, e') = has-some k h.3.0 h.3.1 in
      (
        c ∷ s,
        d ∷ q,
        has-first c s b n (cons d k rest) ∙ e,
        has-second c d q b n k rest h.2 e',
        two-children c d s q k rest h.2,
      )

module _ (c : ℕ) (s : List ℕ) (b : Bool) (cs : Children) (n : Node) where
  Meets-step :
      (acc : List ℕ) (a : Answer)
      → get_child c cs ≡ some n
      → Meets s n acc a
      → Meets (c ∷ s) (node b cs) acc a
  Meets-step acc (found x) e (rest, same, there, one) = (
    rest,
    same,
    has-cons c (s ++ rest) b cs ∙ rw e there,
    λ q h. one q (sym (has-cons c (s ++ q) b cs ∙ rw e) ∙ h),
  )
  Meets-step acc (too_ambiguous x) e (p, q, hp, hq, ne) =
      (p, q, has-cons c (s ++ p) b cs ∙ rw e hp, has-cons c (s ++ q) b cs ∙ rw e hq, ne)
  Meets-step acc not_online e h = λ q. has-cons c (s ++ q) b cs ∙ rw e (h q)

-- The walk along the text to the node at its end.
find_from-Meets :
    (s : List ℕ) (t : Node) (acc : List ℕ)
    → is_dead t ≡ false
    → IsPruned t
    → Meets s t acc (find_from s t acc)
unfolding find_from IsPruned
find_from-Meets [] t acc alive h = descend-Meets t acc alive h
find_from-Meets (c ∷ s) (node b cs) acc alive h = elim (Option-cases (get_child c cs)) [
  | inl e ↦ rw (e, find_from) (λ q. has-cons c (s ++ q) b cs ∙ rw e)
  | inr (n, e) ↦
      let (live, p) = AllPruned-get c cs n h e in
      rw (e, find_from)
        (Meets-step c s b cs n acc (find_from s n acc) e (find_from-Meets s n acc live p))
]

-- `findOne` is right in a tree that is not empty and in which every branch leads to a name: where it
-- gives a name, that is one, begins with the query, and no other does; where it finds the query
-- ambiguous, two different names begin with it; where nobody is online, no name does.
pub find_one-Meets :
    (query : List ℕ) (t : Node)
    → is_dead t ≡ false
    → IsPruned t
    → Meets query t query (find_one t query)
unfolding find_one
find_one-Meets query t alive h = find_from-Meets query t query alive h
