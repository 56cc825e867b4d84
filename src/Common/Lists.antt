-- ===== src/Common/Lists.antt =====
-- Lists measured and indexed by native numbers, under the library's names.
use Prim.Native.Nat.{ℕ, zero, suc, ◌+◌, ◌-◌}
use mathlib.Core.Path.{◌≡◌, refl}
use mathlib.Core.Logic.{◌⊎◌, inl, inr}
use mathlib.Core.Bool.{Bool, true, false}
use mathlib.Core.List.{List, [], ◌∷◌, ◌++◌}
use mathlib.Core.Option.{Option, none, some}
use native.Mathlib.Omega.{arith}
use ot_tibia_teste.Common.Tests.{◌==◌, if◌then◌else◌}

module _ {ℓ} {A : Type ℓ} where
  abbrev pub length : List A → ℕ
  length [] = 0
  length (x ∷ xs) = suc (length xs)

  abbrev pub get_elem? : List A → ℕ → Option A
  get_elem? [] i = none
  get_elem? (x ∷ xs) zero = some x
  get_elem? (x ∷ xs) (suc i) = get_elem? xs i

  abbrev pub get_or : List A → ℕ → A → A
  get_or [] i d = d
  get_or (x ∷ xs) zero d = x
  get_or (x ∷ xs) (suc i) d = get_or xs i d

  abbrev pub drop : ℕ → List A → List A
  drop zero xs = xs
  drop (suc n) [] = []
  drop (suc n) (x ∷ xs) = drop n xs

  abbrev pub replicate : ℕ → A → List A
  replicate zero a = []
  replicate (suc n) a = a ∷ replicate n a

  abbrev pub take : ℕ → List A → List A
  take zero xs = []
  take (suc n) [] = []
  take (suc n) (x ∷ xs) = x ∷ take n xs

  pub length-append : (xs ys : List A) → length (xs ++ ys) ≡ length xs + length ys
  length-append [] ys = omega arith
  length-append (x ∷ xs) ys = omega (arith, length-append xs ys)

  pub length-drop : (n : ℕ) (xs : List A) → length (drop n xs) ≡ length xs - n
  length-drop zero xs = omega arith
  length-drop (suc n) [] = omega arith
  length-drop (suc n) (x ∷ xs) = omega (arith, length-drop n xs)

pub List-cases {ℓ} :
    {A : Type ℓ} (xs : List A) → (xs ≡ []) ⊎ ((x : A) × (rest : List A) × (xs ≡ x ∷ rest))
List-cases [] = inl refl
List-cases (x ∷ rest) = inr (x, rest, refl)

-- A predicate at every element.
abbrev pub All {ℓ κ} : {A : Type ℓ} → (A → Type κ) → List A → Type κ
All P [] = Unit
All P (head ∷ tail) = P head × All P tail

-- `std::find(l.begin(), l.end(), a) != l.end()` at numbers.
abbrev pub contains : ℕ → List ℕ → Bool
contains a [] = false
contains a (x ∷ xs) = if x == a then true else contains a xs

-- `l.erase(std::find(l.begin(), l.end(), a))`: the first element that equals `a`.
abbrev pub erase : ℕ → List ℕ → List ℕ
erase a [] = []
erase a (x ∷ xs) = let rest = erase a xs in if x == a then xs else x ∷ rest

-- No element twice.
abbrev pub IsDistinct : List ℕ → Type 0
IsDistinct [] = Unit {0}
IsDistinct (x ∷ xs) = (contains x xs ≡ false) × IsDistinct xs

pub contains-erase_ne :
    (a b : ℕ) (xs : List ℕ) → (a == b) ≡ false → contains b (erase a xs) ≡ contains b xs
contains-erase_ne a b [] h = refl
contains-erase_ne a b (x ∷ xs) h = ground (arith, contains-erase_ne a b xs h)

pub contains-erase-false :
    (a b : ℕ) (xs : List ℕ) → contains b xs ≡ false → contains b (erase a xs) ≡ false
contains-erase-false a b [] h = refl
contains-erase-false a b (x ∷ xs) h = ground (arith, contains-erase-false a b xs)

pub erase-IsDistinct : (a : ℕ) (xs : List ℕ) → IsDistinct xs → IsDistinct (erase a xs)
erase-IsDistinct a [] h = tt
erase-IsDistinct a (x ∷ xs) h =
    ground (arith, erase-IsDistinct a xs h.1, contains-erase-false a x xs h.0)

pub contains-erase_self : (a : ℕ) (xs : List ℕ) → IsDistinct xs → contains a (erase a xs) ≡ false
contains-erase_self a [] h = refl
contains-erase_self a (x ∷ xs) h = ground (arith, contains-erase_self a xs h.1)

pub contains-append :
    (a : ℕ) (xs ys : List ℕ)
    → contains a (xs ++ ys) ≡ (if contains a xs then true else contains a ys)
contains-append a [] ys = refl
contains-append a (x ∷ xs) ys = ground (arith, contains-append a xs ys)

pub snoc-IsDistinct :
    (xs : List ℕ) (a : ℕ) → IsDistinct xs → contains a xs ≡ false → IsDistinct (xs ++ a ∷ [])
snoc-IsDistinct [] a h n = (refl, tt)
snoc-IsDistinct (x ∷ xs) a h n =
    ground (arith, snoc-IsDistinct xs a h.1, contains-append x xs (a ∷ []))
