-- ===== src/Geometry/Examples.antt =====
-- Tests of `Geometry`, and its theorems at concrete inputs.
use ot_tibia_teste.Common.{◌≡◌, refl, true, arith}
use ot_tibia_teste.Geometry.Position.{Position, IsPosition, position, is_greater}
use ot_tibia_teste.Geometry.Position.Order.{is_greater_lem}
use ot_tibia_teste.Geometry.Direction.{southwest, northeast, get_direction, get_direction_to}

abbrev temple : Position
temple = position 100 200 7

abbrev corner : Position
corner = position 0 65535 7

depot_is_southwest : get_direction_to temple (position 90 210 7) ≡ southwest
unfolding get_direction_to
depot_is_southwest = refl

short_name : get_direction "ne" ≡ northeast
unfolding get_direction
short_name = refl

is_greater_lem_example : is_greater temple temple ≡ true
is_greater_lem_example = (is_greater_lem temple temple).1

temple-IsPosition : IsPosition temple
temple-IsPosition = omega arith

corner-IsPosition : IsPosition corner
corner-IsPosition = omega arith
