-- ===== src/GameProtocol/Known/Laws.antt =====
-- src/protocolgame.cpp: what the client is sent of a creature is what happens to the set.
use ot_tibia_teste.Common.{
  ℕ, ◌+◌, ◌≤◌, ◌≡◌, List, Option, none, some, Bool, true, false, not, ◌==◌, ◌&&◌, if◌then◌else◌,
  contains, length, IsDistinct,
}
use ot_tibia_teste.GameProtocol.Known.{Checked, Introduction, old, new, garbled, introduce}

-- What is documented of `std::unordered_set::insert` of a new element.
pub record Inserts (insert : ℕ → List ℕ → List ℕ) : Type 0 where
  pub members :
      (k j : ℕ) (s : List ℕ) → contains j (insert k s) ≡ (if k == j then true else contains j s)
  pub distinct :
      (k : ℕ) (s : List ℕ) → contains k s ≡ false → IsDistinct s → IsDistinct (insert k s)
  pub one_more : (k : ℕ) (s : List ℕ) → contains k s ≡ false → length (insert k s) ≡ length s + 1

-- What the client makes of an introduction, for the creature `j` that it knew before or not; `none` where
-- it cannot make sense of it. An old creature has to be one that it knows. With a new one it forgets the
-- first and learns the second.
abbrev pub told : Introduction → ℕ → Bool → Option Bool
told (old id) j before = if id == j && not before then none else some before
told (new off id) j before = some (if id == j then true else before && not (off == j))
told garbled j before = none

-- The set after the call: of at most 150 creatures, the one that was asked for among them, and those
-- that the client knows by what it is sent.
pub record Agrees (id : ℕ) (s : List ℕ) (r : Checked) : Type 0 where
  pub few : length r.known_set ≤ 150
  pub once : IsDistinct r.known_set
  pub asked : contains id r.known_set ≡ true
  pub same :
      (j : ℕ)
      → (j == 0) ≡ false
      → told (introduce id r) j (contains j s) ≡ some (contains j r.known_set)

module _ (can_see : ℕ → Bool) (id : ℕ) (seen : can_see id ≡ true) where
  -- An element of the set that is not `id`.
  abbrev Spare : List ℕ → Option ℕ → Type 0
  Spare s none = ⊥
  Spare s (some x) = (contains x s ≡ true) × ((x == id) ≡ false)
