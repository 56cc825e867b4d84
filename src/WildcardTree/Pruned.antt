-- ===== src/WildcardTree/Pruned.antt =====
-- src/wildcardtree.cpp: the trees that `insert` and `remove` build, in which no branch is idle.
use ot_tibia_teste.Common.{
  ℕ, ◌≡◌, refl, subst, ◌∙◌, inl, inr, List, [], ◌∷◌, none, some, Bool, true, false, ◌==◌,
  if◌then◌else◌, arith, Option-cases, Bool-cases,
}
use ot_tibia_teste.WildcardTree.{
  Node, Children, node, nil, cons, get_child, update_child, erase_child, mark_child, add_child,
  insert, is_empty, is_dead,
}
use ot_tibia_teste.WildcardTree.Laws.{has, added, get_child-add, insert-total, str_eqb}

-- Every child has a name at or below it, and no character has two children.
unfoldable mutual
  pub IsPruned : Node → Type 0
  IsPruned (node b cs) = AllPruned cs

  pub AllPruned : Children → Type 0
  AllPruned nil = Unit {0}
  AllPruned (cons c n rest) =
      (is_dead n ≡ false) × IsPruned n × (get_child c rest ≡ none) × AllPruned rest

pub is_dead-has : (n : Node) (s : List ℕ) → is_dead n ≡ true → has s n ≡ false
unfolding is_dead is_empty has get_child
is_dead-has (node b nil) [] h = ground arith
is_dead-has (node b nil) (c ∷ s) h = refl
is_dead-has (node b (cons c n rest)) s h = cc

pub is_dead-leaf : is_dead (node true nil) ≡ false
unfolding is_dead is_empty
is_dead-leaf = refl

pub AllPruned-get :
    (c : ℕ) (cs : Children) (n : Node)
    → AllPruned cs
    → get_child c cs ≡ some n
    → (is_dead n ≡ false) × IsPruned n
unfolding AllPruned get_child
AllPruned-get c nil n h e = cc
AllPruned-get c (cons d k rest) n (alive, pruned, _, others) e = elim (Bool-cases (d == c)) [
  | inl hit ↦ subst (λ x. (is_dead x ≡ false) × IsPruned x) (ground arith) (alive, pruned)
  | inr miss ↦ AllPruned-get c rest n others (ground arith)
]

get_child-update_none :
    (c d : ℕ) (new : Node) (cs : Children)
    → get_child d cs ≡ none
    → get_child d (update_child c new cs) ≡ none
unfolding get_child update_child
get_child-update_none c d new nil h = refl
get_child-update_none c d new (cons e n rest) h = ground (arith, get_child-update_none c d new rest)

pub update_child-AllPruned :
    (c : ℕ) (new : Node) (cs : Children)
    → is_dead new ≡ false
    → IsPruned new
    → AllPruned cs
    → AllPruned (update_child c new cs)
unfolding AllPruned update_child
update_child-AllPruned c new nil alive pruned h = tt
update_child-AllPruned c new (cons d n rest) alive pruned h = ground (
  arith,
  update_child-AllPruned c new rest alive pruned h.3,
  get_child-update_none c d new rest h.2,
)

get_child-erase_none :
    (c d : ℕ) (cs : Children) → get_child d cs ≡ none → get_child d (erase_child c cs) ≡ none
unfolding get_child erase_child
get_child-erase_none c d nil h = refl
get_child-erase_none c d (cons e n rest) h = ground (arith, get_child-erase_none c d rest)

pub erase_child-AllPruned : (c : ℕ) (cs : Children) → AllPruned cs → AllPruned (erase_child c cs)
unfolding AllPruned erase_child
erase_child-AllPruned c nil h = tt
erase_child-AllPruned c (cons d n rest) h =
    ground (arith, erase_child-AllPruned c rest h.3, get_child-erase_none c d rest h.2)

pub get_child-erase :
    (c d : ℕ) (cs : Children)
    → AllPruned cs
    → get_child d (erase_child c cs) ≡ (if c == d then none else get_child d cs)
unfolding AllPruned get_child erase_child
get_child-erase c d nil h = ground arith
get_child-erase c d (cons e n rest) h = ground (arith, get_child-erase c d rest h.3)

mark_child-AllPruned :
    (c : ℕ) (mark : Bool) (n : Node) (cs : Children)
    → IsPruned n
    → AllPruned cs
    → AllPruned (mark_child c mark n cs)
unfolding mark_child is_dead IsPruned
mark_child-AllPruned c mark (node true ks) cs p h = ground arith
mark_child-AllPruned c false (node false ks) cs p h = h
mark_child-AllPruned c true (node false ks) cs p h =
    update_child-AllPruned c (node true ks) cs (ground arith) p h

pub add_child-AllPruned : (c : ℕ) (cs : Children) → AllPruned cs → AllPruned (add_child c true cs)
unfolding add_child IsPruned
add_child-AllPruned c cs h = elim (Option-cases (get_child c cs)) [
  | inl e ↦ rw (e, add_child) (is_dead-leaf, tt, e, h)
  | inr (n, e) ↦ rw (e, add_child) (mark_child-AllPruned c true n cs (AllPruned-get c cs n h e).1 h)
]

-- A child that was added for the way to a longer text, and written again.
pub update_child-added :
    (c : ℕ) (new : Node) (cs : Children)
    → is_dead new ≡ false
    → IsPruned new
    → AllPruned cs
    → AllPruned (update_child c new (add_child c false cs))
unfolding add_child mark_child update_child IsPruned
update_child-added c new cs alive p h = elim (Option-cases (get_child c cs)) [
  | inl e ↦ rw (e, add_child) (ground arith)
  | inr (node b ks, e) ↦ rw (e, add_child) (update_child-AllPruned c new cs alive p h)
]

added-IsPruned : (c : ℕ) (cs : Children) → AllPruned cs → IsPruned (added false (get_child c cs))
unfolding IsPruned
added-IsPruned c cs h = elim (Option-cases (get_child c cs)) [
  | inl e ↦ rw e tt
  | inr (n, e) ↦ rw e (AllPruned-get c cs n h e).1
]

alive_of_has : (n : Node) (s : List ℕ) → has s n ≡ true → is_dead n ≡ false
alive_of_has n s h = elim (Bool-cases (is_dead n)) [
  | inl dead ↦ cc (is_dead-has n s dead)
  | inr alive ↦ alive
]

str_eqb_refl : (s : List ℕ) → str_eqb s s ≡ true
unfolding str_eqb
str_eqb_refl [] = refl
str_eqb_refl (c ∷ s) = ground (arith, str_eqb_refl s)

insert-has_self :
    (s : List ℕ) (c : ℕ) (t t' : Node) → insert (c ∷ s) t ≡ some t' → has (c ∷ s) t' ≡ true
insert-has_self s c t t' e =
    let (n, made, names) = insert-total s c t in
    let same : n ≡ t' = cc in rw (← same) (names (c ∷ s) ∙ rw (str_eqb_refl (c ∷ s)))

insert_step-IsPruned :
    (s : List ℕ) (c : ℕ) (t t' : Node) → IsPruned t → insert (c ∷ s) t ≡ some t' → IsPruned t'
unfolding insert IsPruned
insert_step-IsPruned [] c (node b cs) t' h e =
    let same : node b (add_child c true cs) ≡ t' = ground arith in
    subst IsPruned same (add_child-AllPruned c cs h)
insert_step-IsPruned (d ∷ s) c (node b cs) t' h e =
    let child = added false (get_child c cs) in
    let (new, made, names) = insert-total s d child in
    let there : get_child c (add_child c false cs) ≡ some child =
      ground (arith, get_child-add c c false cs) in
    let kept = insert_step-IsPruned s d child new (added-IsPruned c cs h) made in
    let alive = alive_of_has new (d ∷ s) (insert-has_self s d child new made) in
    let same : node b (update_child c new (add_child c false cs)) ≡ t' =
      ground (arith, there, made) in
    subst IsPruned same (update_child-added c new cs alive kept h)

-- `insert` succeeds on every text but the empty one; the tree then has the names that it had and the
-- text, and every branch of it still leads to a name if every branch did.
pub insert-has :
    (c : ℕ) (s : List ℕ) (t : Node)
    → IsPruned t
    → (t' : Node) × (insert (c ∷ s) t ≡ some t')
      × ((q : List ℕ) → has q t' ≡ (if str_eqb (c ∷ s) q then true else has q t))
      × IsPruned t'
insert-has c s t h =
    let (t', made, names) = insert-total s c t in
    (t', made, names, insert_step-IsPruned s c t t' h made)
