-- ===== src/GameProtocol/Known.antt =====
-- src/protocolgame.cpp: the creatures that a client knows, `checkCreatureAsKnown`, and what
-- the client is sent of one, `AddCreature`. The hash table
-- `knownCreatureSet` is the list of its elements in the order of its iterators; how `insert` orders them
-- is a parameter.
pub mod Laws
use ot_tibia_teste.Common.{
  ℕ, ◌+◌, List, [], ◌∷◌, Option, none, some, Bool, true, false, ltb, ◌==◌, if◌then◌else◌, contains,
  erase, length,
}

-- The set after the call and its results; `removed_known` is `none` where it is not written.
pub record Checked : Type 0 where
  pub known_set : List ℕ
  pub known : Bool
  pub removed_known : Option ℕ

-- The loop over the set: the first creature that cannot be seen.
pub first_unseen : (ℕ → Bool) → List ℕ → Option ℕ
first_unseen can_see [] = none
first_unseen can_see (x ∷ xs) = if can_see x then first_unseen can_see xs else some x

-- Anyone but `id`; `none` is the end of the set.
abbrev pub anyone_but : ℕ → List ℕ → Option ℕ
anyone_but id [] = none
anyone_but id (x ∷ []) = if x == id then none else some x
anyone_but id (x ∷ y ∷ more) = if x == id then some y else some x

-- Who has to go from a set that is too large. Reading the end is a fault, which leaves no one out.
unfoldable pub outcast : (ℕ → Bool) → ℕ → List ℕ → Option ℕ
unfolding first_unseen
outcast can_see id s = elim (first_unseen can_see s) [ some x ↦ some x | none ↦ anyone_but id s ]

abbrev pub without : Option ℕ → List ℕ → Checked
without none s = record { known_set = s; known = false; removed_known = none }
without (some x) s = record { known_set = erase x s; known = false; removed_known = some x }

-- `checkCreatureAsKnown`
unfoldable pub check_creature_as_known : (ℕ → List ℕ → List ℕ) → (ℕ → Bool) → ℕ → List ℕ → Checked
unfolding outcast
check_creature_as_known insert can_see id s =
    if contains id s
    then record { known_set = s; known = true; removed_known = none }
    else if ltb 150 (length (insert id s))
    then without (outcast can_see id (insert id s)) (insert id s)
    else record { known_set = insert id s; known = false; removed_known = some 0 }

-- How `AddCreature` begins: a creature that is known, by its id (0x62), or a new one, with the id of the
-- one to forget (0x61). It is garbled where that id was not written.
pub data Introduction : Type 0 where
  old : ℕ → Introduction
  new : ℕ → ℕ → Introduction
  garbled : Introduction

-- `AddCreature`, called with the results of `checkCreatureAsKnown`.
unfoldable pub introduce : ℕ → Checked → Introduction
introduce id r =
    if r.known then old id else elim r.removed_known [ none ↦ garbled | some x ↦ new x id ]
