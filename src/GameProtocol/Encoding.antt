-- ===== src/GameProtocol/Encoding.antt =====
-- src/protocolgame.cpp: the markers of a description, and how they are read.
use ot_tibia_teste.Common.{
  ℕ, zero, suc, ◌+◌, ◌-◌, ◌≤◌, ◌<◌, ◌≡◌, refl, ap, sym, ◌∙◌, List, [], ◌∷◌, ◌++◌, Option, none,
  some, true, false, ◌==◌, if◌then◌else◌, length, arith, Bool-cases, inl, inr,
}
use mathlib.Core.List.{append_assoc}
use ot_tibia_teste.Common.Words.{u8}
use ot_tibia_teste.GameProtocol.{Piece, byte, thing, Described, marker, place}

-- Places in their order, each with its tile or with none.
module _ {T : Type 0} where
  -- A description read by the meaning of its markers: a tile stands for itself, and a marker ends a
  -- place and says how many empty ones come after it. `n` places are left, of which the first `k` are empty.
  pub read_places : ℕ → ℕ → List (Piece T) → Option (List (Option T))
  read_places zero k message = some []
  read_places (suc n) (suc k) message = elim (read_places n k message) [
    | none ↦ none
    | some cells ↦ some (none ∷ cells)
  ]
  read_places (suc n) zero (byte s ∷ byte e ∷ message) =
      if e == 255
      then elim (read_places n s message) [ none ↦ none | some cells ↦ some (none ∷ cells) ]
      else none
  read_places (suc n) zero (thing t ∷ byte s ∷ byte e ∷ message) =
      if e == 255
      then elim (read_places n s message) [ none ↦ none | some cells ↦ some (some t ∷ cells) ]
      else none
  read_places (suc n) zero other = none

  -- All places, one after the other.
  unfoldable pub describe : List (Option T) → Described T → Described T
  describe [] d = d
  describe (cell ∷ cells) d = describe cells (place cell d)

  pub describe-append :
      (cells more : List (Option T)) (d : Described T)
      → describe (cells ++ more) d ≡ describe more (describe cells d)
  unfolding describe
  describe-append [] more d = refl
  describe-append (cell ∷ cells) more d = describe-append cells more (place cell d)

  -- What is written from a value of `skip` on, the last marker included.
  pub written : Option ℕ → List (Option T) → List (Piece T)
  written skip [] = marker skip
  written skip (some t ∷ cells) = marker skip ++ thing t ∷ written (some 0) cells
  written none (none ∷ cells) = written (some 0) cells
  written (some s) (none ∷ cells) = elim (s == 254) [
    | true ↦ byte 255 ∷ byte 255 ∷ written none cells
    | false ↦ written (some (s + 1)) cells
  ]

  place-full :
      (s : ℕ) (message : List (Piece T))
      → (s == 254) ≡ true
      → place {T = T} none (record { skip = some s; message = message })
        ≡ record { skip = none; message = message ++ byte 255 ∷ byte 255 ∷ [] }
  unfolding place
  place-full s message e = rw e refl

  place-more :
      (s : ℕ) (message : List (Piece T))
      → (s == 254) ≡ false
      → place {T = T} none (record { skip = some s; message = message })
        ≡ record { skip = some (s + 1); message = message }
  unfolding place
  place-more s message e = rw e refl

  written-full :
      (s : ℕ) (cells : List (Option T))
      → (s == 254) ≡ true
      → written (some s) (none ∷ cells) ≡ byte 255 ∷ byte 255 ∷ written none cells
  unfolding written
  written-full s cells e = rw (e, written) refl

  written-more :
      (s : ℕ) (cells : List (Option T))
      → (s == 254) ≡ false
      → written (some s) (none ∷ cells) ≡ written (some (s + 1)) cells
  unfolding written
  written-more s cells e = rw (e, written) refl

  -- A whole message, with the last marker.
  abbrev pub finished : Described T → List (Piece T)
  finished d = d.message ++ marker d.skip

  pub describe-written :
      (cells : List (Option T)) (skip : Option ℕ) (message : List (Piece T))
      → finished (describe cells (record { skip = skip; message = message }))
        ≡ message ++ written skip cells
  unfolding describe written place
  describe-written [] skip message = refl
  describe-written (some t ∷ cells) skip message =
      describe-written cells (some 0) (message ++ (marker skip ++ thing t ∷ []))
      ∙ append_assoc message (marker skip ++ thing t ∷ []) (written (some 0) cells)
      ∙ ap (λ m. message ++ m) (append_assoc (marker skip) (thing t ∷ []) (written (some 0) cells))
  describe-written (none ∷ cells) none message = describe-written cells (some 0) message
  describe-written (none ∷ cells) (some s) message = elim (Bool-cases (s == 254)) [
    | inl full ↦
        ap (λ d. finished (describe cells d)) (place-full s message full)
        ∙ describe-written cells none (message ++ byte 255 ∷ byte 255 ∷ [])
        ∙ append_assoc message (byte 255 ∷ byte 255 ∷ []) (written none cells)
        ∙ ap (λ m. message ++ m) (sym (written-full s cells full))
    | inr more ↦
        ap (λ d. finished (describe cells d)) (place-more s message more)
        ∙ describe-written cells (some (s + 1)) message
        ∙ ap (λ m. message ++ m) (sym (written-more s cells more))
  ]

  -- What is written after a place that was a tile or was the last of some empty ones: a marker, that
  -- counts the empty places from there on, and `s` more.
  abbrev Counts : ℕ → List (Option T) → Type 0
  Counts s cells =
      (m : ℕ) × (rest : List (Piece T)) × (s ≤ m)
      × (m < 256)
      × (written (some s) cells ≡ byte m ∷ byte 255 ∷ rest)
      × (read_places (length cells) (m - s) rest ≡ some cells)

  tile-Counts :
      (cells : List (Option T)) (t : T)
      → Counts 0 cells
      → read_places (suc (length cells)) 0 (thing t ∷ written (some 0) cells)
        ≡ some (some t ∷ cells)
  unfolding read_places
  tile-Counts cells t (m, rest, least, most, e, back) =
      let all : m - 0 ≡ m = omega arith in rw (e, read_places, ← all, back) refl

  gap-Counts :
      (cells : List (Option T))
      → Counts 0 cells
      → read_places (suc (length cells)) 0 (written (some 0) cells) ≡ some (none ∷ cells)
  unfolding read_places
  gap-Counts cells (m, rest, least, most, e, back) =
      let all : m - 0 ≡ m = omega arith in rw (e, read_places, ← all, back) refl

  empty_place :
      (n k : ℕ) (message : List (Piece T)) {cells : List (Option T)}
      → read_places n k message ≡ some cells
      → read_places (suc n) (suc k) message ≡ some (none ∷ cells)
  unfolding read_places
  empty_place n k message e = rw (e, read_places) refl

  mutual
    unfolding written read_places

    some-Counts : (cells : List (Option T)) (s : ℕ) → s ≤ 254 → Counts s cells
    some-Counts [] s h =
        let fits : u8 s ≡ s = omega arith in (s, [], omega arith, omega arith, rw fits refl, refl)
    some-Counts (some t ∷ cells) s h =
        let fits : u8 s ≡ s = omega arith in
        let zero_left : s - s ≡ 0 = omega arith in
        (
          s,
          thing t ∷ written (some 0) cells,
          omega arith,
          omega arith,
          rw fits refl,
          rw zero_left (tile-Counts cells t (some-Counts cells 0 (omega arith))),
        )
    some-Counts (none ∷ cells) s h = elim (Bool-cases (s == 254)) [
      | inl full ↦
          let one_left : 255 - s ≡ 1 = ground arith in
          (
            255,
            written none cells,
            omega arith,
            omega arith,
            written-full s cells full,
            rw one_left (empty_place (length cells) 0 (written none cells) (none-read cells)),
          )
      | inr more ↦
          let (m, rest, least, most, e, back) = some-Counts cells (s + 1) (ground arith) in
          let one_more : m - s ≡ suc (m - (s + 1)) = omega arith in
          (
            m,
            rest,
            omega arith,
            most,
            written-more s cells more ∙ e,
            rw one_more (empty_place (length cells) (m - (s + 1)) rest back),
          )
    ]

    pub none-read :
        (cells : List (Option T)) → read_places (length cells) 0 (written none cells) ≡ some cells
    none-read [] = refl
    none-read (some t ∷ cells) = tile-Counts cells t (some-Counts cells 0 (omega arith))
    none-read (none ∷ cells) = gap-Counts cells (some-Counts cells 0 (omega arith))
