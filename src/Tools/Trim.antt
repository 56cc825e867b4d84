-- ===== src/Tools/Trim.antt =====
-- src/tools.cpp: spaces at the ends of a string, letter case, and the first line.
use mathlib.Core.List.{append_assoc}
use ot_tibia_teste.Common.{
  ℕ, ◌+◌, ◌-◌, ◌≡◌, refl, ap, ◌∙◌, List, [], ◌∷◌, ◌++◌, ◌&&◌, leb, ◌==◌, if◌then◌else◌, arith,
  replicate, map, Bool-cases, inl, inr, suc,
}

-- `find_last_not_of(t)`, and all behind it erased.
unfoldable pub trim_right : List ℕ → ℕ → List ℕ
trim_right [] t = []
trim_right (c ∷ cs) t = elim (trim_right cs t) [
  | [] ↦ if c == t then [] else c ∷ []
  | d ∷ ds ↦ c ∷ d ∷ ds
]

-- All before `find_first_not_of(t)` erased.
unfoldable pub trim_left : List ℕ → ℕ → List ℕ
trim_left [] t = []
trim_left (c ∷ cs) t = let rest = trim_left cs t in if c == t then rest else c ∷ cs

unfoldable pub trim_string : List ℕ → List ℕ
unfolding trim_right trim_left
trim_string s = trim_left (trim_right s 32) 32

-- `toupper` and `tolower` of the "C" locale.
unfoldable pub to_upper : ℕ → ℕ
to_upper c = if leb 97 c && leb c 122 then c - 32 else c

unfoldable pub to_lower : ℕ → ℕ
to_lower c = if leb 65 c && leb c 90 then c + 32 else c

unfoldable pub as_lower_case_string : List ℕ → List ℕ
as_lower_case_string s = map to_lower s

unfoldable pub as_upper_case_string : List ℕ → List ℕ
as_upper_case_string s = map to_upper s

unfoldable pub ucfirst : List ℕ → List ℕ
ucfirst [] = []
ucfirst (c ∷ cs) = let rest = ucfirst cs in if c == 32 then c ∷ rest else to_upper c ∷ cs

-- The loop of `ucwords` behind a character, which it has already written.
unfoldable pub ucwords_after : ℕ → List ℕ → List ℕ
ucwords_after before [] = []
ucwords_after before (c ∷ cs) =
    let c' = if before == 32 then to_upper c else c in c' ∷ ucwords_after c' cs

unfoldable pub ucwords : List ℕ → List ℕ
unfolding ucwords_after
ucwords [] = []
ucwords (c ∷ cs) = to_upper c ∷ ucwords_after (to_upper c) cs

unfoldable pub get_first_line : List ℕ → List ℕ
get_first_line [] = []
get_first_line (c ∷ cs) = let rest = get_first_line cs in if c == 10 then [] else c ∷ rest

trim_right_split : (s : List ℕ) (t : ℕ) → (n : ℕ) × (s ≡ trim_right s t ++ replicate n t)
unfolding trim_right
trim_right_split [] t = (0, refl)
trim_right_split (c ∷ cs) t = front (trim_right cs t) (trim_right_split cs t)
  where
    front :
        (r : List ℕ)
        → ((n : ℕ) × (cs ≡ r ++ replicate n t))
        → (n : ℕ) × ((c ∷ cs)
            ≡ (elim r [ [] ↦ if c == t then [] else c ∷ [] | d ∷ ds ↦ c ∷ d ∷ ds ])
              ++ replicate n t)
    front [] (n, same) = elim (Bool-cases (c == t)) [
      | inl e ↦ (suc n, ground (arith, same))
      | inr e ↦ (n, ground (arith, same))
    ]
    front (d ∷ ds) (n, same) = (n, ap (λ l. c ∷ l) same)

trim_left_split : (s : List ℕ) (t : ℕ) → (n : ℕ) × (s ≡ replicate n t ++ trim_left s t)
unfolding trim_left
trim_left_split [] t = (0, refl)
trim_left_split (c ∷ cs) t = elim (Bool-cases (c == t)) [
  | inl e ↦ let (n, same) = trim_left_split cs t in (suc n, ground (arith, same))
  | inr e ↦ (0, ground arith)
]

trim_left_idem : (s : List ℕ) (t : ℕ) → trim_left (trim_left s t) t ≡ trim_left s t
unfolding trim_left
trim_left_idem [] t = refl
trim_left_idem (c ∷ cs) t = ground (arith, trim_left_idem cs t)

trim_right_idem : (s : List ℕ) (t : ℕ) → trim_right (trim_right s t) t ≡ trim_right s t
unfolding trim_right
trim_right_idem [] t = refl
trim_right_idem (c ∷ cs) t = ground (arith, trim_right_idem cs t)

trim_right-trim_left :
    (s : List ℕ) (t : ℕ) → trim_right s t ≡ s → trim_right (trim_left s t) t ≡ trim_left s t
unfolding trim_right trim_left
trim_right-trim_left [] t h = refl
trim_right-trim_left (c ∷ cs) t h = ground (arith, trim_right-trim_left cs t)

to_upper_idem : (c : ℕ) → to_upper (to_upper c) ≡ to_upper c
unfolding to_upper
to_upper_idem c = ground arith

to_upper_same : (c : ℕ) → (to_upper c == 32) ≡ (c == 32)
unfolding to_upper
to_upper_same c = ground arith

ucwords_after_idem :
    (before : ℕ) (s : List ℕ)
    → ucwords_after before (ucwords_after before s) ≡ ucwords_after before s
unfolding ucwords_after
ucwords_after_idem before [] = refl
ucwords_after_idem before (c ∷ cs) =
    ground (arith, to_upper_idem c, ucwords_after_idem c cs, ucwords_after_idem (to_upper c) cs)

-- A string is what `trimString` leaves with spaces before and behind it, and to trim that again
-- changes nothing: no space is left at its ends.
pub trim_string_lem :
    (s : List ℕ)
    → ((before behind : ℕ) × (s ≡ replicate before 32 ++ (trim_string s ++ replicate behind 32)))
      × (trim_string (trim_string s) ≡ trim_string s)
unfolding trim_string
trim_string_lem s =
    let (n, right) = trim_right_split s 32 in
    let (k, left) = trim_left_split (trim_right s 32) 32 in
    (
      (
        k,
        n,
        right
            ∙ ap (λ l. l ++ replicate n 32) left
            ∙ append_assoc (replicate k 32) (trim_left (trim_right s 32) 32) (replicate n 32),
      ),
      rw (trim_right-trim_left (trim_right s 32) 32 (trim_right_idem s 32))
          (trim_left_idem (trim_right s 32) 32),
    )

lower_upper : (c : ℕ) → to_lower (to_upper c) ≡ to_lower c
unfolding to_lower to_upper
lower_upper c = ground arith

lower_ucwords_after :
    (before : ℕ) (s : List ℕ) → map to_lower (ucwords_after before s) ≡ map to_lower s
unfolding ucwords_after
lower_ucwords_after before [] = refl
lower_ucwords_after before (c ∷ cs) =
    ground (arith, lower_upper c, lower_ucwords_after c cs, lower_ucwords_after (to_upper c) cs)

-- `ucwords` changes nothing that it has changed, and letter case only.
pub ucwords_idem :
    (s : List ℕ)
    → (ucwords (ucwords s) ≡ ucwords s)
      × (as_lower_case_string (ucwords s) ≡ as_lower_case_string s)
unfolding ucwords as_lower_case_string
ucwords_idem [] = (refl, refl)
ucwords_idem (c ∷ cs) = (
  ground (arith, to_upper_idem c, ucwords_after_idem (to_upper c) cs),
  ground (arith, lower_upper c, lower_ucwords_after (to_upper c) cs),
)
