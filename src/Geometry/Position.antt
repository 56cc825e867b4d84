-- ===== src/Geometry/Position.antt =====
-- src/position.h: map positions, their offsets and distances, and their comparison operators.
-- `x` and `y` are uint16_t and `z` is uint8_t; the range is the hypothesis `IsPosition`.
pub mod Order
use ot_tibia_teste.Common.{
  ℕ, ◌+◌, ◌-◌, ◌%◌, ◌^◌, ◌<◌, Bool, true, false, not, ◌&&◌, ◌||◌, ltb, leb, ◌==◌, if◌then◌else◌,
}
use ot_tibia_teste.Common.Int.{ℤ, sub_ℕ, abs}
use ot_tibia_teste.Common.Words.{u8, u16}

pub record Position : Type 0 where
  pub x : ℕ
  pub y : ℕ
  pub z : ℕ

abbrev pub position : ℕ → ℕ → ℕ → Position
position x y z = record { x = x; y = y; z = z }

pub record IsPosition (p : Position) : Type 0 where
  pub x_fits : p.x < 2 ^ 16
  pub y_fits : p.y < 2 ^ 16
  pub z_fits : p.z < 2 ^ 8

unfoldable pub get_offset_x : Position → Position → ℤ
get_offset_x p1 p2 = sub_ℕ p1.x p2.x

unfoldable pub get_offset_y : Position → Position → ℤ
get_offset_y p1 p2 = sub_ℕ p1.y p2.y

unfoldable pub get_offset_z : Position → Position → ℤ
get_offset_z p1 p2 = sub_ℕ p1.z p2.z

unfoldable pub get_distance_x : Position → Position → ℕ
unfolding get_offset_x
get_distance_x p1 p2 = abs (get_offset_x p1 p2)

unfoldable pub get_distance_y : Position → Position → ℕ
unfolding get_offset_y
get_distance_y p1 p2 = abs (get_offset_y p1 p2)

unfoldable pub get_distance_z : Position → Position → ℕ
unfolding get_offset_z
get_distance_z p1 p2 = abs (get_offset_z p1 p2)

-- `areInRange<deltax, deltay>`, and the overload with the two bounds as arguments.
unfoldable pub are_in_range : ℕ → ℕ → Position → Position → Bool
unfolding get_distance_x get_distance_y
are_in_range dx dy p1 p2 = leb (get_distance_x p1 p2) dx && leb (get_distance_y p1 p2) dy

-- `areInRange<deltax, deltay, deltaz>`
unfoldable pub are_in_range_floor : ℕ → ℕ → ℕ → Position → Position → Bool
unfolding get_distance_x get_distance_y get_distance_z
are_in_range_floor dx dy dz p1 p2 =
    leb (get_distance_x p1 p2) dx && leb (get_distance_y p1 p2) dy && leb (get_distance_z p1 p2) dz

-- `operator<`
unfoldable pub is_less : Position → Position → Bool
is_less a p =
    if ltb a.z p.z
    then true
    else if ltb p.z a.z
    then false
    else if ltb a.y p.y
    then true
    else if ltb p.y a.y
    then false
    else if ltb a.x p.x
    then true
    else if ltb p.x a.x
    then false
    else false

-- `operator>`
unfoldable pub is_greater : Position → Position → Bool
unfolding is_less
is_greater a p = not (is_less a p)

-- `operator==`
unfoldable pub is_equal : Position → Position → Bool
is_equal a p = p.x == a.x && p.y == a.y && p.z == a.z

-- `operator!=`
unfoldable pub is_unequal : Position → Position → Bool
is_unequal a p = not (p.x == a.x) || not (p.y == a.y) || not (p.z == a.z)

-- `operator+` and `operator-`, whose arguments wrap to the types of the fields.
unfoldable pub add : Position → Position → Position
add a p = position (u16 (a.x + p.x)) (u16 (a.y + p.y)) (u8 (a.z + p.z))

unfoldable pub sub : Position → Position → Position
sub a p = position (u16 (a.x + 2 ^ 16 - p.x)) (u16 (a.y + 2 ^ 16 - p.y)) (u8 (a.z + 2 ^ 8 - p.z))
