-- ===== src/GameProtocol/Examples.antt =====
-- A small part of a map, as it is described.
use ot_tibia_teste.Common.{
  ℕ, zero, suc, not, ◌≡◌, refl, List, [], ◌∷◌, none, some, ◌==◌, if◌then◌else◌, length,
}
use ot_tibia_teste.Common.Int.{pos, negsuc, ◌+ℤ◌, ◌-ℤ◌}
use ot_tibia_teste.GameProtocol.{
  byte, thing, Tiles, get_map_description, describe_floors, get_floor_description, describe_columns,
  describe_rows, place, floors_seen,
}
use ot_tibia_teste.GameProtocol.Encoding.{read_places}
use ot_tibia_teste.GameProtocol.Known.{check_creature_as_known}
use ot_tibia_teste.GameProtocol.Loops.{get_map_description-read, places}

-- One tile on the ground, at (5, 6).
abbrev lone_tile : Tiles ℕ
lone_tile (pos x) (pos y) z =
    if x == 5 then (if y == 6 then (if z == 7 then some 100 else none) else none) else none
lone_tile (negsuc x) y z = none
lone_tile (pos x) (negsuc y) z = none

-- 2 places before the tile and 45 after it, on eight floors of 3 times 2 places.
lone_tile_description :
    get_map_description lone_tile (pos 4) (pos 6) 7 3 2
    ≡ byte 1 ∷ byte 255 ∷ thing 100 ∷ byte 45 ∷ byte 255 ∷ []
unfolding get_map_description describe_floors get_floor_description describe_columns describe_rows
    place floors_seen ◌+ℤ◌ ◌-ℤ◌
lone_tile_description = refl

get_map_description-read_example :
    read_places
      (length (places lone_tile (pos 4) (pos 6) 7 3 2 (floors_seen 7)))
      0
      (get_map_description lone_tile (pos 4) (pos 6) 7 3 2)
    ≡ some (places lone_tile (pos 4) (pos 6) 7 3 2 (floors_seen 7))
get_map_description-read_example = get_map_description-read lone_tile (pos 4) (pos 6) 7 3 2

abbrev down_from : ℕ → List ℕ
down_from zero = []
down_from (suc n) = suc n ∷ down_from n

-- Of 150 known creatures, 40 cannot be seen: it makes room for the new one.
known_full :
    (check_creature_as_known (λ k s. k ∷ s) (λ c. not (c == 40)) 200 (down_from 150)).removed_known
    ≡ some 40
unfolding check_creature_as_known
known_full = refl
