-- ===== src/Player/Experience/Table.antt =====
-- src/player.h: the experience that a level asks for.
use ot_tibia_teste.Common.{
  ℕ, zero, suc, ◌+◌, ◌-◌, ◌*◌, ◌/◌, ◌^◌, ◌≤◌, ◌<◌, ◌≡◌, refl, sym, subst, ◌⊎◌, inl, inr, arith,
}
use ot_tibia_teste.Common.Words.{u64, sub64}
use ot_tibia_teste.Player.Experience.{get_exp_for_level}

-- lv³ - 6 lv² + 17 lv - 12
abbrev pub cubic : ℕ → ℕ
cubic lv = lv * lv * lv + 17 * lv - (6 * (lv * lv) + 12)

le_cases : (a b : ℕ) → (a ≤ b) ⊎ (b < a)
le_cases a b = ground arith

cube_le : (n : ℕ) → n ≤ 2 ^ 19 → (n * n ≤ 2 ^ 38) × (n * n * n ≤ 2 ^ 57)
cube_le n h = let square : n * n ≤ 2 ^ 38 = grind arith in (square, grind arith)

beyond : (n : ℕ) → n + 6 ≤ 2 ^ 19 → get_exp_for_level (n + 6) ≡ cubic (n + 6) / 6 * 400
unfolding get_exp_for_level sub64
beyond n h =
    let (square, cube) = cube_le n (omega arith) in
    let first : u64 (n + 6 + 2 ^ 64 - 6) ≡ n = omega arith in
    let second : u64 (n * (n + 6)) ≡ n * n + 6 * n = omega arith in
    let third : u64 (n * n + 6 * n + 17) ≡ n * n + 6 * n + 17 = omega arith in
    let fourth : u64 ((n * n + 6 * n + 17) * (n + 6)) ≡ n * n * n + 12 * (n * n) + 53 * n + 102 =
      omega arith in
    let fifth : u64 (n * n * n + 12 * (n * n) + 53 * n + 102 + 2 ^ 64 - 12)
        ≡ n * n * n + 12 * (n * n) + 53 * n + 90 =
      omega arith in
    rw (first, second, third, fourth, fifth) (omega arith)

-- The first levels, one by one.
below : (lv : ℕ) → 1 ≤ lv → lv < 6 → get_exp_for_level lv ≡ cubic lv / 6 * 400
unfolding get_exp_for_level sub64
below (suc zero) h k = refl
below (suc (suc zero)) h k = refl
below (suc (suc (suc zero))) h k = refl
below (suc (suc (suc (suc zero)))) h k = refl
below (suc (suc (suc (suc (suc zero))))) h k = refl
below zero h k = absurd (omega arith)
below (suc (suc (suc (suc (suc (suc n)))))) h k = absurd (omega arith)

-- No step of the computation overflows up to level 2 ^ 19, and none goes below 0 from 1 on.
pub get_exp_for_level_lem :
    (lv : ℕ) → 1 ≤ lv → lv ≤ 2 ^ 19 → get_exp_for_level lv ≡ cubic lv / 6 * 400
get_exp_for_level_lem lv h k = elim (le_cases 6 lv) [
  | inl large ↦
      let e : lv ≡ lv - 6 + 6 = omega arith in
      subst (λ l. get_exp_for_level l ≡ cubic l / 6 * 400) (sym e) (beyond (lv - 6) (omega arith))
  | inr small ↦ below lv h small
]

self_square : (k : ℕ) → k ≤ k * k
self_square zero = omega arith
self_square (suc n) = omega arith

mul_mono : (k a b : ℕ) → a ≤ b → k * a ≤ k * b
mul_mono k a b h = grind arith

square_above : (k : ℕ) → (3 * (k * k) ≤ k * k * k + 8 * k) × (k ≤ k * k)
square_above k =
    let line : k ≤ k * k = self_square k in
    let above : 3 * k ≤ k * k + 8 = elim (le_cases 3 k) [
      | inl large ↦ grind arith
      | inr small ↦ omega arith
    ] in
    let product = mul_mono k (3 * k) (k * k + 8) above in (omega arith, line)

cubic_up : (lv : ℕ) → 1 ≤ lv → cubic lv + 6 ≤ cubic (suc lv)
cubic_up zero h = absurd (omega arith)
cubic_up (suc k) h = let (line, square) = square_above k in omega arith

-- Each level asks for more than the one before it.
pub get_exp_for_level_up :
    (lv : ℕ) → 1 ≤ lv → lv < 2 ^ 19 → get_exp_for_level lv < get_exp_for_level (suc lv)
get_exp_for_level_up lv h k = omega (
  arith,
  get_exp_for_level_lem lv h (omega arith),
  cubic_up lv h,
  get_exp_for_level_lem (suc lv) (omega arith) k,
)

pub get_exp_for_level_mono :
    (a k : ℕ) → 1 ≤ a → a + k ≤ 2 ^ 19 → get_exp_for_level a ≤ get_exp_for_level (a + k)
get_exp_for_level_mono a zero h top = ground arith
get_exp_for_level_mono a (suc k) h top =
    let same : a + suc k ≡ suc (a + k) = omega arith in
    rw same (
      omega (
        arith,
        get_exp_for_level_mono a k h (omega arith),
        get_exp_for_level_up (a + k) (omega arith) (omega arith),
      ))
