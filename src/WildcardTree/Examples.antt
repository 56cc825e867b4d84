-- ===== src/WildcardTree/Examples.antt =====
-- Tests of `WildcardTree`, and its theorems at concrete inputs.
use ot_tibia_teste.Common.{ℕ, ◌≡◌, refl, List, [], ◌∷◌, some, true, false, if◌then◌else◌}
use ot_tibia_teste.WildcardTree.{
  Node, node, nil, cons, insert, remove, find_one, is_dead, is_empty, get_child,
}
use ot_tibia_teste.WildcardTree.Laws.{has, str_eqb}
use ot_tibia_teste.WildcardTree.Pruned.{IsPruned, AllPruned, insert-has}
use ot_tibia_teste.WildcardTree.Remove.{remove-has}
use ot_tibia_teste.WildcardTree.Find.{Meets, find_one-Meets}

-- The names "al" and "ax".
abbrev names : Node
names =
    node false
      (cons b'a' (node false (cons b'l' (node true nil) (cons b'x' (node true nil) nil))) nil)

names-IsPruned : IsPruned names
unfolding IsPruned AllPruned is_dead is_empty get_child
names-IsPruned = (refl, (refl, tt, refl, (refl, tt, refl, tt)), refl, tt)

names-alive : is_dead names ≡ false
unfolding is_dead is_empty
names-alive = refl

insert-has_example :
    (t : Node) × (insert (b'b' ∷ []) names ≡ some t)
    × ((q : List ℕ) → has q t ≡ (if str_eqb (b'b' ∷ []) q then true else has q names))
    × IsPruned t
insert-has_example = insert-has b'b' [] names names-IsPruned

remove-has_example :
    IsPruned (remove (b'a' ∷ b'x' ∷ []) names)
    × ((q : List ℕ)
        → has q (remove (b'a' ∷ b'x' ∷ []) names)
          ≡ (if str_eqb (b'a' ∷ b'x' ∷ []) q then false else has q names))
remove-has_example = remove-has (b'a' ∷ b'x' ∷ []) names names-IsPruned

find_one-Meets_example :
    Meets (b'a' ∷ b'l' ∷ []) names (b'a' ∷ b'l' ∷ []) (find_one names (b'a' ∷ b'l' ∷ []))
find_one-Meets_example = find_one-Meets (b'a' ∷ b'l' ∷ []) names names-alive names-IsPruned
