-- ===== src/GameProtocol/Loops.antt =====
-- src/protocolgame.cpp: the places that `GetMapDescription` goes through, and that they are read again.
use ot_tibia_teste.Common.{
  ℕ, zero, suc, ◌≡◌, refl, ap, sym, ◌∙◌, List, [], ◌∷◌, ◌++◌, Option, none, some, length,
}
use ot_tibia_teste.Common.Int.{ℤ, pos, ◌+ℤ◌, ◌-ℤ◌}
use ot_tibia_teste.GameProtocol.{
  Described, Tiles, place, describe_rows, describe_columns, get_floor_description, describe_floors,
  floors_seen, get_map_description,
}
use ot_tibia_teste.GameProtocol.Encoding.{
  describe, describe-append, describe-written, none-read, read_places, finished,
}

module _ {T : Type 0} (tiles : Tiles T) where
  -- A column of places, from `y` on.
  unfoldable pub column : ℤ → ℤ → ℕ → ℕ → List (Option T)
  column x y z zero = []
  column x y z (suc n) = tiles x y z ∷ column x (y +ℤ pos 1) z n

  -- Columns from `x` on.
  unfoldable pub columns : ℤ → ℤ → ℕ → ℕ → ℕ → List (Option T)
  columns x y z zero height = []
  columns x y z (suc n) height = column x y z height ++ columns (x +ℤ pos 1) y z n height

  -- The floors one after the other, each moved by its distance in height.
  unfoldable pub places : ℤ → ℤ → ℕ → ℕ → ℕ → List ℕ → List (Option T)
  unfolding column columns
  places x y z width height [] = []
  places x y z width height (nz ∷ floors) =
      columns (x +ℤ (pos z -ℤ pos nz)) (y +ℤ (pos z -ℤ pos nz)) nz width height
      ++ places x y z width height floors

  describe_rows-column :
      (x y : ℤ) (z n : ℕ) (d : Described T)
      → describe_rows tiles x y z n d ≡ describe (column x y z n) d
  unfolding describe_rows column describe
  describe_rows-column x y z zero d = refl
  describe_rows-column x y z (suc n) d =
      describe_rows-column x (y +ℤ pos 1) z n (place (tiles x y z) d)

  describe_columns-columns :
      (x y : ℤ) (z n height : ℕ) (d : Described T)
      → describe_columns tiles x y z n height d ≡ describe (columns x y z n height) d
  unfolding describe_columns columns describe
  describe_columns-columns x y z zero height d = refl
  describe_columns-columns x y z (suc n) height d =
      describe_columns-columns (x +ℤ pos 1) y z n height (describe_rows tiles x y z height d)
      ∙ ap (describe (columns (x +ℤ pos 1) y z n height)) (describe_rows-column x y z height d)
      ∙ sym (describe-append (column x y z height) (columns (x +ℤ pos 1) y z n height) d)

  describe_floors-places :
      (x y : ℤ) (z width height : ℕ) (floors : List ℕ) (d : Described T)
      → describe_floors tiles x y z width height floors d
        ≡ describe (places x y z width height floors) d
  unfolding describe_floors places get_floor_description describe
  describe_floors-places x y z width height [] d = refl
  describe_floors-places x y z width height (nz ∷ floors) d =
      let by = pos z -ℤ pos nz in
      describe_floors-places x y z width height floors
        (get_floor_description tiles x y nz width height by d)
      ∙ ap (describe (places x y z width height floors))
          (describe_columns-columns (x +ℤ by) (y +ℤ by) nz width height d)
      ∙ sym (
          describe-append (columns (x +ℤ by) (y +ℤ by) nz width height)
            (places x y z width height floors) d)

-- The description of a part of the map says which tile is where: read by the meaning of its markers,
-- it gives all places of all floors that are seen from the height `z`, in their order, each with its
-- tile or with none. In particular every number of empty places has a marker that fits a byte.
pub get_map_description-read :
    {T : Type 0} (tiles : Tiles T) (x y : ℤ) (z width height : ℕ)
    → read_places
        (length (places tiles x y z width height (floors_seen z)))
        0
        (get_map_description tiles x y z width height)
      ≡ some (places tiles x y z width height (floors_seen z))
unfolding get_map_description
get_map_description-read {T} tiles x y z width height =
    let cells = places tiles x y z width height (floors_seen z) in
    let start : Described T = record { skip = none; message = [] } in
    ap (λ d. read_places (length cells) 0 (finished d))
      (describe_floors-places tiles x y z width height (floors_seen z) start)
    ∙ ap (read_places (length cells) 0) (describe-written cells none [])
    ∙ none-read cells
