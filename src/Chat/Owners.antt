-- ===== src/Chat/Owners.antt =====
-- src/chat.cpp: properties of the entries of a map, and who owns the private channels.
use ot_tibia_teste.Common.{
  ℕ, ◌≡◌, refl, List, [], ◌∷◌, ◌++◌, none, some, false, ◌==◌, arith, All, IsDistinct, contains,
  ==_iff, subst, Bool-cases, inl, inr,
}
use ot_tibia_teste.Common.Maps.{lookup, insert, erase}
use ot_tibia_teste.Chat.{PrivateChannel, private_of, leave_privates}

-- All that `erase` leaves has other keys.
pub erase-All :
    {V : Type 0} (P Q : ℕ × V → Type 0) (key : ℕ) (m : List (ℕ × V))
    → ((u : ℕ × V) → (u.0 == key) ≡ false → P u → Q u)
    → All P m
    → All Q (erase key m)
unfolding erase
erase-All P Q key [] keep h = tt
erase-All P Q key (u ∷ m) keep h = ground (arith, keep u, erase-All P Q key m keep)

pub insert-All :
    {V : Type 0} (P : ℕ × V → Type 0) (key : ℕ) (value : V) (m : List (ℕ × V))
    → P (key, value)
    → All P m
    → All P (insert key value m)
unfolding insert
insert-All P key value [] p h = (p, tt)
insert-All P key value (u ∷ m) p h = ground (arith, insert-All P key value m p)

pub map-All :
    {V : Type 0} (P Q : V → Type 0) (m : List V) → ((u : V) → P u → Q u) → All P m → All Q m
map-All P Q [] keep h = tt
map-All P Q (u ∷ m) keep h = (keep u h.0, map-All P Q m keep h.1)

pub lookup-All :
    {V : Type 0} (P : ℕ × V → Type 0) (key : ℕ) (v : V) (m : List (ℕ × V))
    → lookup key m ≡ some v
    → All P m
    → P (key, v)
unfolding lookup
lookup-All P key v [] e h = cc
lookup-All P key v ((k, w) ∷ m) e h = elim (Bool-cases (k == key)) [
  | inl same ↦
      let key_same : k ≡ key = (==_iff k key).0 same in
      let value_same : w ≡ v = ground arith in
      subst (λ c. P (c, v)) key_same (subst (λ c. P (k, c)) value_same h.0)
  | inr other ↦ lookup-All P key v m (ground arith) h.1
]

-- Who owns the private channels.
abbrev pub owners : List (ℕ × PrivateChannel) → List ℕ
owners [] = []
owners ((k, ch) ∷ rest) = ch.owner ∷ owners rest

pub owners-insert_same :
    (k : ℕ) (ch ch' : PrivateChannel) (m : List (ℕ × PrivateChannel))
    → lookup k m ≡ some ch
    → ch'.owner ≡ ch.owner
    → owners (insert k ch' m) ≡ owners m
unfolding lookup insert
owners-insert_same k ch ch' [] found same = cc
owners-insert_same k ch ch' ((j, d) ∷ m) found same = ground (arith, owners-insert_same k ch ch' m)

pub owners-insert_new :
    (k : ℕ) (ch : PrivateChannel) (m : List (ℕ × PrivateChannel))
    → lookup k m ≡ none
    → owners (insert k ch m) ≡ owners m ++ ch.owner ∷ []
unfolding lookup insert
owners-insert_new k ch [] free = refl
owners-insert_new k ch ((j, d) ∷ m) free = ground (arith, owners-insert_new k ch m)

pub private_of-none :
    (guid : ℕ) (m : List (ℕ × PrivateChannel))
    → private_of guid m ≡ none
    → contains guid (owners m) ≡ false
unfolding private_of
private_of-none guid [] h = refl
private_of-none guid ((k, ch) ∷ m) h = ground (arith, private_of-none guid m)

pub owners-erase_absent :
    (k a : ℕ) (m : List (ℕ × PrivateChannel))
    → contains a (owners m) ≡ false
    → contains a (owners (erase k m)) ≡ false
unfolding erase
owners-erase_absent k a [] h = refl
owners-erase_absent k a ((j, d) ∷ m) h = ground (arith, owners-erase_absent k a m)

pub owners-erase-IsDistinct :
    (k : ℕ) (m : List (ℕ × PrivateChannel))
    → IsDistinct (owners m)
    → IsDistinct (owners (erase k m))
unfolding erase
owners-erase-IsDistinct k [] h = tt
owners-erase-IsDistinct k ((j, d) ∷ m) h =
    ground (arith, owners-erase-IsDistinct k m h.1, owners-erase_absent k d.owner m h.0)

pub owners-leave_absent :
    (id guid a : ℕ) (m : List (ℕ × PrivateChannel))
    → contains a (owners m) ≡ false
    → contains a (owners (leave_privates id guid m)) ≡ false
unfolding leave_privates
owners-leave_absent id guid a [] h = refl
owners-leave_absent id guid a ((j, d) ∷ m) h = ground (arith, owners-leave_absent id guid a m)

pub owners-leave-IsDistinct :
    (id guid : ℕ) (m : List (ℕ × PrivateChannel))
    → IsDistinct (owners m)
    → IsDistinct (owners (leave_privates id guid m))
unfolding leave_privates
owners-leave-IsDistinct id guid [] h = tt
owners-leave-IsDistinct id guid ((j, d) ∷ m) h =
    ground (arith, owners-leave-IsDistinct id guid m h.1, owners-leave_absent id guid d.owner m h.0)
