-- ===== src/Geometry/Direction.antt =====
-- The directions of src/position.h, and the functions on them in src/tools.cpp.
pub mod Laws
use Prim.Native.String.{String}
use text.Mathlib.Text.{◌==◌ as str_eq}
use ot_tibia_teste.Common.{
  ℕ, ◌+◌, ◌-◌, ◌%◌, ◌^◌, Bool, true, false, ◌||◌, ltb, leb, ◌==◌, if◌then◌else◌,
}
use ot_tibia_teste.Common.Int.{ℤ, pos, ltb_ℤ, abs, pos_part}
use ot_tibia_teste.Common.Words.{u16}
use ot_tibia_teste.Geometry.Position.{Position, get_offset_x, get_offset_y, is_equal}

-- `DIRECTION_NONE` is `nowhere`.
pub data Direction : Type 0 where
  north east south west southwest southeast northwest northeast nowhere : Direction

-- The numbers of the enumeration.
unfoldable pub code : Direction → ℕ
code north = 0
code east = 1
code south = 2
code west = 3
code southwest = 4
code southeast = 5
code northwest = 6
code northeast = 7
code nowhere = 8

-- `operator<<`
unfoldable pub print : Direction → String
print north = "North"
print east = "East"
print west = "West"
print south = "South"
print southwest = "South-West"
print southeast = "South-East"
print northwest = "North-West"
print northeast = "North-East"
print nowhere = ""

unfoldable pub get_direction : String → Direction
get_direction s =
    if str_eq s "north" || str_eq s "n" || str_eq s "0"
    then north
    else if str_eq s "east" || str_eq s "e" || str_eq s "1"
    then east
    else if str_eq s "south" || str_eq s "s" || str_eq s "2"
    then south
    else if str_eq s "west" || str_eq s "w" || str_eq s "3"
    then west
    else if str_eq s "southwest"
        || str_eq s "south west"
        || str_eq s "south-west"
        || str_eq s "sw"
        || str_eq s "4"
    then southwest
    else if str_eq s "southeast"
        || str_eq s "south east"
        || str_eq s "south-east"
        || str_eq s "se"
        || str_eq s "5"
    then southeast
    else if str_eq s "northwest"
        || str_eq s "north west"
        || str_eq s "north-west"
        || str_eq s "nw"
        || str_eq s "6"
    then northwest
    else if str_eq s "northeast"
        || str_eq s "north east"
        || str_eq s "north-east"
        || str_eq s "ne"
        || str_eq s "7"
    then northeast
    else north

-- `++` and `--` on a uint16_t.
abbrev up : ℕ → ℕ
up n = u16 (n + 1)

abbrev down : ℕ → ℕ
down n = u16 (n + 2 ^ 16 - 1)

unfoldable pub get_next_position : Direction → Position → Position
get_next_position north p = record p { y = down p.y }
get_next_position south p = record p { y = up p.y }
get_next_position west p = record p { x = down p.x }
get_next_position east p = record p { x = up p.x }
get_next_position southwest p = record p { x = down p.x; y = up p.y }
get_next_position northwest p = record p { x = down p.x; y = down p.y }
get_next_position northeast p = record p { x = up p.x; y = down p.y }
get_next_position southeast p = record p { x = up p.x; y = up p.y }
get_next_position nowhere p = p

is_east : Direction → Bool
is_east east = true
is_east _ = false

-- The part of `getDirectionTo` from the second offset on: `dir` is east or west, `x` is the first
-- offset without its sign.
turn : Direction → ℕ → ℤ → Direction
unfolding is_east
turn dir x y_offset =
    if ltb_ℤ y_offset (pos 0)
    then (if ltb x (abs y_offset)
        then south
        else if abs y_offset == x
        then (if is_east dir then southeast else southwest)
        else dir)
    else if ltb x (abs y_offset)
    then north
    else if abs y_offset == x
    then (if is_east dir then northeast else northwest)
    else dir

unfoldable pub get_direction_to : Position → Position → Direction
unfolding turn is_equal get_offset_x get_offset_y
get_direction_to source target =
    if is_equal source target
    then nowhere
    else let x_offset = get_offset_x source target in
      turn (if ltb_ℤ x_offset (pos 0) then east else west) (abs x_offset)
        (get_offset_y source target)
