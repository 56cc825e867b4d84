-- ===== src/Geometry/Direction/Laws.antt =====
-- src/tools.cpp: `getNextPosition` and `getDirectionTo` against each other.
use ot_tibia_teste.Common.{ℕ, ◌+◌, ◌^◌, ◌<◌, ◌≡◌, ◌≢◌, ◌⊎◌, inl, inr, max, arith}
use ot_tibia_teste.Geometry.Position.{Position, IsPosition, get_distance_x, get_distance_y}
use ot_tibia_teste.Geometry.Direction.{
  Direction, north, east, south, west, southwest, southeast, northwest, northeast, nowhere,
  get_next_position, get_direction_to,
}

pub opposite : Direction → Direction
opposite north = south
opposite east = west
opposite south = north
opposite west = east
opposite southwest = northeast
opposite southeast = northwest
opposite northwest = southeast
opposite northeast = southwest
opposite nowhere = nowhere

-- A step in a direction and a step in the opposite one lead back, also across the edge of the map,
-- where the coordinates wrap.
pub get_next_position-opposite :
    (d : Direction) (p : Position)
    → IsPosition p
    → get_next_position (opposite d) (get_next_position d p) ≡ p
unfolding get_next_position opposite
get_next_position-opposite north p h = ground arith
get_next_position-opposite _ p h = ground arith

-- The number of steps between two positions of a floor, diagonal steps included.
pub steps : Position → Position → ℕ
steps p q = max (get_distance_x p q) (get_distance_y p q)

-- Where the target lies: in the octant of a direction, or on its diagonal.
abbrev Toward : Position → Position → Direction → Type 0
Toward s t north = (s.x + t.y < t.x + s.y) × (t.x + t.y < s.x + s.y)
Toward s t south = (s.x + s.y < t.x + t.y) × (t.x + s.y < s.x + t.y)
Toward s t east = (s.x + t.y < t.x + s.y) × (s.x + s.y < t.x + t.y)
Toward s t west = (t.x + s.y < s.x + t.y) × (t.x + t.y < s.x + s.y)
Toward s t northeast = (s.x < t.x) × (s.x + s.y ≡ t.x + t.y)
Toward s t southwest = (t.x < s.x) × (s.x + s.y ≡ t.x + t.y)
Toward s t northwest = (t.x < s.x) × (s.x + t.y ≡ t.x + s.y)
Toward s t southeast = (s.x < t.x) × (s.x + t.y ≡ t.x + s.y)
Toward s t nowhere = ⊥

Order-cases : (a b : ℕ) → (a < b) ⊎ (a ≡ b) ⊎ (b < a)
Order-cases a b = omega arith

module _ (s t : Position) where
  get_direction_to-Toward : (s.x ≢ t.x) ⊎ (s.y ≢ t.y) → Toward s t (get_direction_to s t)
  unfolding get_direction_to
  get_direction_to-Toward h = elim (Order-cases s.x t.x) [
    | inl a ↦ ground arith
    | inr (inl b) ↦ ground arith
    | inr (inr c) ↦ ground arith
  ]

  next-nearer :
      (d : Direction)
      → IsPosition s
      → IsPosition t
      → Toward s t d
      → steps (get_next_position d s) t + 1 ≡ steps s t
  unfolding get_next_position steps get_distance_x get_distance_y
  next-nearer nowhere hs ht h = absurd h
  next-nearer _ hs ht h = ground arith

-- A step in the direction that `getDirectionTo` gives is a step nearer: the number of steps to the
-- target falls by one. The two positions are in range and differ in x or y.
pub get_direction_to-nearer :
    (source target : Position)
    → IsPosition source
    → IsPosition target
    → (source.x ≢ target.x) ⊎ (source.y ≢ target.y)
    → steps (get_next_position (get_direction_to source target) source) target + 1
      ≡ steps source target
get_direction_to-nearer source target hs ht h =
    next-nearer source target (get_direction_to source target) hs ht
      (get_direction_to-Toward source target h)

-- Of a position and its neighbour in a direction, `getDirectionTo` gives that direction back,
-- where the neighbour does not lie across the edge of the map.
pub get_direction_to-next :
    (d : Direction) (p : Position)
    → 0 < p.x
    → 0 < p.y
    → p.x + 1 < 2 ^ 16
    → p.y + 1 < 2 ^ 16
    → get_direction_to p (get_next_position d p) ≡ d
unfolding get_next_position get_direction_to
get_direction_to-next north p a b c e = ground arith
get_direction_to-next _ p a b c e = ground arith
