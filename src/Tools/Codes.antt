-- ===== src/Tools/Codes.antt =====
-- src/tools.cpp: the numbers of combat types and of fluids, and their places in tables.
use ot_tibia_teste.Common.{
  ℕ, zero, suc, ◌+◌, ◌^◌, ◌<◌, ◌≡◌, ◌⊎◌, inl, inr, refl, List, [], ◌∷◌, true, leb, ◌==◌,
  if◌then◌else◌, arith, length, get_or, contains, Bool-cases,
}
use ot_tibia_teste.Common.Words.{u16}

-- The cases of the `switch`, in order: the values `1 << 0` to `1 << 11` of `CombatType_t`.
unfoldable pub combat_type_to_index : ℕ → ℕ
combat_type_to_index t =
    if t == 1
    then 0
    else if t == 2
    then 1
    else if t == 4
    then 2
    else if t == 8
    then 3
    else if t == 16
    then 4
    else if t == 32
    then 5
    else if t == 64
    then 6
    else if t == 128
    then 7
    else if t == 256
    then 8
    else if t == 512
    then 9
    else if t == 1024
    then 10
    else if t == 2048
    then 11
    else 0

-- `static_cast<CombatType_t>(1 << v)`, of 16 bits.
unfoldable pub index_to_combat_type : ℕ → ℕ
index_to_combat_type v = u16 (2 ^ v)

back : (v : ℕ) → v < 12 → combat_type_to_index (index_to_combat_type v) ≡ v
unfolding combat_type_to_index index_to_combat_type
back zero h = refl
back (suc zero) h = refl
back (suc (suc zero)) h = refl
back (suc (suc (suc zero))) h = refl
back (suc (suc (suc (suc zero)))) h = refl
back (suc (suc (suc (suc (suc zero))))) h = refl
back (suc (suc (suc (suc (suc (suc zero)))))) h = refl
back (suc (suc (suc (suc (suc (suc (suc zero))))))) h = refl
back (suc (suc (suc (suc (suc (suc (suc (suc zero)))))))) h = refl
back (suc (suc (suc (suc (suc (suc (suc (suc (suc zero))))))))) h = refl
back (suc (suc (suc (suc (suc (suc (suc (suc (suc (suc zero)))))))))) h = refl
back (suc (suc (suc (suc (suc (suc (suc (suc (suc (suc (suc zero))))))))))) h = refl
back (suc (suc (suc (suc (suc (suc (suc (suc (suc (suc (suc (suc v)))))))))))) h =
    absurd (omega arith)

bounded : (t : ℕ) → combat_type_to_index t < 12
unfolding combat_type_to_index
bounded t = ground arith

there : (t : ℕ) → (index_to_combat_type (combat_type_to_index t) ≡ t) ⊎ (combat_type_to_index t ≡ 0)
unfolding combat_type_to_index index_to_combat_type
there t = ground arith

-- Each of the `COMBAT_COUNT` indices comes back from its type, every index is one of these, and every
-- type comes back from its index or has the index 0 of the default.
pub combat_type_to_index_lem :
    (v t : ℕ)
    → (v < 12 → combat_type_to_index (index_to_combat_type v) ≡ v)
      × (combat_type_to_index t < 12)
      × ((index_to_combat_type (combat_type_to_index t) ≡ t) ⊎ (combat_type_to_index t ≡ 0))
combat_type_to_index_lem v t = (back v, bounded t, there t)

-- `clientToServerFluidMap`
abbrev pub client_to_server_fluid_map : List ℕ
client_to_server_fluid_map =
    0 ∷ 1 ∷ 7 ∷ 3 ∷ 19 ∷ 2 ∷ 4 ∷ 27 ∷ 5 ∷ 6 ∷ 15 ∷ 10 ∷ 13 ∷ 11 ∷ 21 ∷ 14 ∷ 35 ∷ 43 ∷ []

-- The loop from index `i` on.
unfoldable pub find_fluid : ℕ → List ℕ → ℕ → ℕ
find_fluid fluid [] i = 0
find_fluid fluid (f ∷ fs) i =
    let rest = find_fluid fluid fs (suc i) in if f == fluid then i else rest

unfoldable pub server_fluid_to_client : ℕ → ℕ
unfolding find_fluid
server_fluid_to_client fluid = find_fluid fluid client_to_server_fluid_map 0

unfoldable pub client_fluid_to_server : ℕ → ℕ
client_fluid_to_server fluid =
    if leb (length client_to_server_fluid_map) fluid
    then 0
    else get_or client_to_server_fluid_map fluid 0

-- A fluid that the list has is at the place that is found, counted from `i`.
found_at :
    (fluid : ℕ) (fs : List ℕ) (i : ℕ)
    → contains fluid fs ≡ true
    → (k : ℕ) × (find_fluid fluid fs i ≡ i + k) × (k < length fs) × (get_or fs k 0 ≡ fluid)
unfolding find_fluid
found_at fluid [] i h = absurd (ground arith)
found_at fluid (f ∷ fs) i h = elim (Bool-cases (f == fluid)) [
  | inl e ↦ (0, rw e (omega arith), omega arith, ground arith)
  | inr e ↦
      let (k, found, short, same) = found_at fluid fs (suc i) (ground arith) in
      (suc k, rw e (omega (arith, found)), omega (arith, short), same)
]

of_place :
    (i k : ℕ) {fluid : ℕ}
    → i ≡ 0 + k
    → k < length client_to_server_fluid_map
    → get_or client_to_server_fluid_map k 0 ≡ fluid
    → (client_fluid_to_server i ≡ fluid) × (i < length client_to_server_fluid_map)
unfolding client_fluid_to_server
of_place i k e short same =
    let same_place : i ≡ k = omega arith in (rw same_place (ground arith), omega arith)

-- A fluid that the map has comes back from the client's number of it.
pub server_fluid_to_client_lem :
    (fluid : ℕ)
    → contains fluid client_to_server_fluid_map ≡ true
    → (client_fluid_to_server (server_fluid_to_client fluid) ≡ fluid)
      × (server_fluid_to_client fluid < length client_to_server_fluid_map)
unfolding server_fluid_to_client client_fluid_to_server
server_fluid_to_client_lem fluid h =
    let (k, found, short, same) = found_at fluid client_to_server_fluid_map 0 h in
    of_place (find_fluid fluid client_to_server_fluid_map 0) k found short same
