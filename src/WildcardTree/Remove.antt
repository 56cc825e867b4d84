-- ===== src/WildcardTree/Remove.antt =====
-- src/wildcardtree.cpp: the names that a tree holds after `remove`.
use ot_tibia_teste.Common.{
  ℕ, ◌≡◌, refl, ◌∙◌, inl, inr, List, [], ◌∷◌, Option, none, some, Bool, true, false, ◌==◌,
  if◌then◌else◌, arith, Option-cases, Bool-cases, ◌>>=◌,
}
use ot_tibia_teste.WildcardTree.{
  Node, Children, node, get_child, is_dead, put_back, remove_path, remove,
}
use ot_tibia_teste.WildcardTree.Laws.{has, has_in, has-cons, get_child-update, str_eqb}
use ot_tibia_teste.WildcardTree.Pruned.{
  IsPruned, AllPruned, is_dead-has, AllPruned-get, update_child-AllPruned, erase_child-AllPruned,
  get_child-erase,
}

-- What the way back leaves: the child as it was changed, or nothing if it is dead.
put_back-get :
    (c d : ℕ) (old new : Node) (cs : Children) (q : List ℕ)
    → AllPruned cs
    → get_child c cs ≡ some old
    → has_in q (get_child d (put_back c new cs))
      ≡ (if c == d then has q new else has_in q (get_child d cs))
unfolding put_back
put_back-get c d old new cs q h e =
    ground (arith, get_child-erase c d cs h, get_child-update c d new cs, is_dead-has new q)

put_back-AllPruned :
    (c : ℕ) (new : Node) (cs : Children)
    → AllPruned cs
    → IsPruned new
    → AllPruned (put_back c new cs)
unfolding put_back
put_back-AllPruned c new cs h p = elim (Bool-cases (is_dead new)) [
  | inl dead ↦ rw dead (erase_child-AllPruned c cs h)
  | inr alive ↦ rw alive (update_child-AllPruned c new cs alive p h)
]

-- What the walk down and back gives.
abbrev Without : List ℕ → Node → Option Node → Type 0
Without s t none = has s t ≡ false
Without s t (some t') =
    IsPruned t' × ((q : List ℕ) → has q t' ≡ (if str_eqb s q then false else has q t))

remove_path-root :
    (b : Bool) (cs : Children) (q : List ℕ)
    → has q (node false cs) ≡ (if str_eqb [] q then false else has q (node b cs))
unfolding has str_eqb
remove_path-root b cs [] = refl
remove_path-root b cs (c ∷ q) = refl

module _ (c : ℕ) (s : List ℕ) (b : Bool) (cs : Children) (old new : Node) where
  put_back-names :
      AllPruned cs
      → get_child c cs ≡ some old
      → ((q : List ℕ) → has q new ≡ (if str_eqb s q then false else has q old))
      → (q : List ℕ)
      → has q (node b (put_back c new cs))
        ≡ (if str_eqb (c ∷ s) q then false else has q (node b cs))
  unfolding str_eqb
  put_back-names h e n [] = unfold has in refl
  put_back-names h e n (d ∷ q) = ground (
    arith,
    has-cons d q b (put_back c new cs),
    has-cons d q b cs,
    put_back-get c d old new cs q h e,
    n q,
  )

str_eqb_sound : (s q : List ℕ) → str_eqb s q ≡ true → s ≡ q
unfolding str_eqb
str_eqb_sound [] [] h = refl
str_eqb_sound [] (d ∷ q) h = cc
str_eqb_sound (c ∷ s) [] h = cc
str_eqb_sound (c ∷ s) (d ∷ q) h = ground (arith, str_eqb_sound s q)

module _ (c : ℕ) (s : List ℕ) (b : Bool) (cs : Children) (h : AllPruned cs) where
  Without-missing : get_child c cs ≡ none → has (c ∷ s) (node b cs) ≡ false
  Without-missing e = has-cons c s b cs ∙ rw e

  -- One step of the walk, from what the rest of it gives.
  Without-step :
      (old : Node) (rest : Option Node)
      → get_child c cs ≡ some old
      → Without s old rest
      → Without (c ∷ s) (node b cs) (rest >>= λ new. some (node b (put_back c new cs)))
  unfolding IsPruned
  Without-step old none e w = has-cons c s b cs ∙ rw e w
  Without-step old (some new) e (p, names) =
      (put_back-AllPruned c new cs h p, put_back-names c s b cs old new h e names)

remove_path-Without : (s : List ℕ) (t : Node) → IsPruned t → Without s t (remove_path s t)
unfolding remove_path IsPruned
remove_path-Without [] (node b cs) h = (h, remove_path-root b cs)
remove_path-Without (c ∷ s) (node b cs) h = elim (Option-cases (get_child c cs)) [
  | inl e ↦ rw (e, remove_path) (Without-missing c s b cs h e)
  | inr (old, e) ↦
      rw (e, remove_path)
        (Without-step c s b cs h old (remove_path s old) e
          (remove_path-Without s old (AllPruned-get c cs old h e).1))
]

has-absent :
    (s q : List ℕ) (t : Node) → has s t ≡ false → has q t ≡ (if str_eqb s q then false else has q t)
has-absent s q t h = elim (Bool-cases (str_eqb s q)) [
  | inl same ↦ rw same (rw (← str_eqb_sound s q same) h)
  | inr other ↦ rw other refl
]

-- After `remove` the tree has the names that it had but for the text, whether that was a name or
-- not, and every branch of it still leads to a name if every branch did.
pub remove-has :
    (s : List ℕ) (t : Node)
    → IsPruned t
    → IsPruned (remove s t)
      × ((q : List ℕ) → has q (remove s t) ≡ (if str_eqb s q then false else has q t))
unfolding remove
remove-has s t h =
    let w = remove_path-Without s t h in
    elim (Option-cases (remove_path s t)) [
      | inl e ↦ rw (e, remove) (h, λ q. has-absent s q t (rw e at w))
      | inr (t', e) ↦ rw (e, remove) (rw e at w)
    ]
