-- ===== src/GameProtocol.antt =====
-- src/protocolgame.cpp: the description of a part of the map that a client is sent. A tile's own
-- description is one `thing` of the output; all else that is written is bytes.
mod Encoding
mod Loops
pub mod Known
mod Examples
use ot_tibia_teste.Common.{
  ℕ, zero, suc, ◌+◌, ◌-◌, List, [], ◌∷◌, ◌++◌, Option, none, some, Bool, true, false, min, ltb,
  ◌==◌, if◌then◌else◌,
}
use ot_tibia_teste.Common.Int.{ℤ, pos, ◌+ℤ◌, ◌-ℤ◌}
use ot_tibia_teste.Common.Words.{u8}

-- What is written to the message.
pub data Piece (T : Type 0) : Type 0 where
  byte : ℕ → Piece T
  thing : T → Piece T

-- The variable `skip`, of which `none` is -1, and the message.
pub record Described (T : Type 0) : Type 0 where
  pub skip : Option ℕ
  pub message : List (Piece T)

-- `msg.addByte(skip); msg.addByte(0xFF);` if `skip` is not negative.
abbrev pub marker : {T : Type 0} → Option ℕ → List (Piece T)
marker none = []
marker (some s) = byte (u8 s) ∷ byte 255 ∷ []

-- Where there is no tile.
abbrev pub skip_place : {T : Type 0} → Option ℕ → List (Piece T) → Described T
skip_place none message = record { skip = some 0; message = message }
skip_place (some s) message =
    if s == 254
    then record { skip = none; message = message ++ byte 255 ∷ byte 255 ∷ [] }
    else record { skip = some (s + 1); message = message }

module _ {T : Type 0} where
  -- The body of the loops of `GetFloorDescription`.
  unfoldable pub place : Option T → Described T → Described T
  place (some tile) d = record {
    skip = some 0;
    message = d.message ++ (marker d.skip ++ thing tile ∷ []);
  }
  place none d = skip_place d.skip d.message

-- `map.getTile`, with the conversions of its arguments.
abbrev pub Tiles : Type 0 → Type 0
Tiles T = ℤ → ℤ → ℕ → Option T

module _ {T : Type 0} (tiles : Tiles T) where
  -- The inner loop, with `n` rows left from `y` on.
  unfoldable pub describe_rows : ℤ → ℤ → ℕ → ℕ → Described T → Described T
  unfolding place
  describe_rows x y z zero d = d
  describe_rows x y z (suc n) d = describe_rows x (y +ℤ pos 1) z n (place (tiles x y z) d)

  -- The outer loop, with `n` columns left from `x` on.
  unfoldable pub describe_columns : ℤ → ℤ → ℕ → ℕ → ℕ → Described T → Described T
  unfolding describe_rows
  describe_columns x y z zero height d = d
  describe_columns x y z (suc n) height d =
      describe_columns (x +ℤ pos 1) y z n height (describe_rows x y z height d)

  -- `GetFloorDescription`
  unfoldable pub get_floor_description : ℤ → ℤ → ℕ → ℕ → ℕ → ℤ → Described T → Described T
  unfolding describe_columns
  get_floor_description x y z width height offset d =
      describe_columns (x +ℤ offset) (y +ℤ offset) z width height d

  -- The loop over the floors.
  unfoldable pub describe_floors : ℤ → ℤ → ℕ → ℕ → ℕ → List ℕ → Described T → Described T
  unfolding get_floor_description
  describe_floors x y z width height [] d = d
  describe_floors x y z width height (nz ∷ floors) d =
      describe_floors x y z width height floors
        (get_floor_description x y nz width height (pos z -ℤ pos nz) d)

-- `count` floors from `z` on, downwards into the ground.
pub floors_from : ℕ → ℕ → List ℕ
floors_from z zero = []
floors_from z (suc count) = z ∷ floors_from (z + 1) count

-- The values of `nz`: above the ground all floors from 7 up to 0, below it two on each side. A map has no
-- floor below 15; the loop of the source would not end for a `z` from 19 on.
unfoldable pub floors_seen : ℕ → List ℕ
unfolding floors_from
floors_seen z =
    if ltb 7 z
    then floors_from (z - 2) (min 15 (z + 2) + 1 - (z - 2))
    else 7 ∷ 6 ∷ 5 ∷ 4 ∷ 3 ∷ 2 ∷ 1 ∷ 0 ∷ []

-- `GetMapDescription`: what is written to an empty message.
unfoldable pub get_map_description : {T : Type 0} → Tiles T → ℤ → ℤ → ℕ → ℕ → ℕ → List (Piece T)
unfolding describe_floors floors_seen
get_map_description tiles x y z width height =
    let d =
      describe_floors tiles x y z width height (floors_seen z)
        (record { skip = none; message = [] }) in
    d.message ++ marker d.skip
