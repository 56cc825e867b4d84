-- ===== src/Player/Training/Advance.antt =====
-- src/player.cpp: `addManaSpent` and `addSkillAdvance` count what is spent exactly.
use ot_tibia_teste.Common.{
  ℕ, zero, suc, ◌+◌, ◌^◌, ◌≤◌, ◌<◌, ◌≡◌, refl, ap, Option, none, some, false, leb, ◌==◌, arith,
  Bool-cases, inl, inr,
}
use ot_tibia_teste.Common.Words.{u16, u32, u64, sub64}
use ot_tibia_teste.Player.Training.{
  Skill, Course, one_level, advance, start, finish_mana, add_mana_spent, finish_skill,
  add_skill_advance,
}

-- What all the levels up to this one ask for.
abbrev pub sum_req : (ℕ → ℕ) → ℕ → ℕ
sum_req req zero = 0
sum_req req (suc level) = sum_req req level + req (suc level)

-- Everything that was spent.
abbrev pub total : (ℕ → ℕ) → Skill → ℕ
total req s = sum_req req s.level + s.tries

-- A table whose levels ask for more and more, up to a last one.
abbrev pub IsTable : (ℕ → ℕ) → ℕ → Type 0
IsTable req top = ((l : ℕ) → l < top → req l < req (suc l)) × (sum_req req top < 2 ^ 64)

module _ (req wrap : ℕ → ℕ) (top : ℕ) (table : IsTable req top)
    (small : (l : ℕ) → l ≤ top → wrap l ≡ l) where
  abbrev IsOn : ℕ → Course → Type 0
  IsOn sum c =
      (c.level < top)
      × (c.curr ≡ req c.level)
      × (c.next ≡ req (suc c.level))
      × (c.at_end ≡ false)
      × (sum_req req c.level + c.spent + c.amount ≡ sum)
      × (c.spent < c.next)

  -- The loop came to its end: the sum is as it was, and the next level is not reached.
  abbrev Reached : ℕ → Option Course → Type 0
  Reached sum none = ⊥
  Reached sum (some c) = IsOn sum c × (c.spent + c.amount < c.next)

  not_last : (l sum : ℕ) → l ≤ top → sum_req req l ≤ sum → sum < sum_req req top → l < top
  not_last l sum le less most = grind arith

  one_level-IsOn :
      (sum : ℕ) (c : Course)
      → IsOn sum c
      → sum < sum_req req top
      → c.next ≤ c.spent + c.amount
      → IsOn sum (one_level req wrap c)
        × ((one_level req wrap c).spent + (one_level req wrap c).amount < c.spent + c.amount)
        × (leb (req (wrap (suc (wrap (suc c.level))))) c.next ≡ false)
  unfolding one_level sub64
  one_level-IsOn sum c (low, curr, next, on, same, below) most le =
      let higher = not_last (suc c.level) sum (omega arith) (omega arith) most in
      let first = small (suc c.level) (omega arith) in
      let second = small (suc (suc c.level)) higher in
      let up = table.0 c.level low in
      let up' = table.0 (suc c.level) higher in
      let high = table.1 in
      rw (first, second)
        ((higher, next, refl, ground arith, omega arith, omega arith), omega arith, ground arith)

  advance-Reached :
      (fuel sum : ℕ) (c : Course)
      → IsOn sum c
      → sum < sum_req req top
      → c.spent + c.amount < fuel
      → Reached sum (advance req wrap fuel c)
  unfolding advance
  advance-Reached zero sum c on most enough = absurd (omega arith)
  advance-Reached (suc fuel) sum c on most enough =
      let high = table.1 in
      let exact : u64 (c.spent + c.amount) ≡ c.spent + c.amount = omega arith in
      ground (arith, one_level-IsOn sum c on most, advance-Reached fuel sum (one_level req wrap c))

  came_out :
      (sum : ℕ) (r : Option Course)
      → Reached sum r
      → (c : Course) × (r ≡ some c) × Reached sum (some c)
  came_out sum none h = absurd h
  came_out sum (some c) h = (c, refl, h)

  start-IsOn :
      (s : Skill) (gained : ℕ)
      → s.level < top
      → s.tries < req (suc s.level)
      → IsOn (total req s + gained) (start req wrap s.level s.tries gained)
  unfolding start
  start-IsOn s gained low below = (
    low,
    refl,
    ap req (small (suc s.level) (omega arith)),
    refl,
    refl,
    rw (small (suc s.level) (omega arith)) below,
  )

  -- The loop from its start on.
  advanced :
      (s : Skill) (gained : ℕ)
      → s.level < top
      → s.tries < req (suc s.level)
      → total req s + gained < sum_req req top
      → (c : Course) × (advance req wrap
            (suc (suc (s.tries + gained)))
            (start req wrap s.level s.tries gained)
          ≡ some c)
        × Reached (total req s + gained) (some c)
  unfolding start
  advanced s gained low below most = came_out (total req s + gained) _ (
      advance-Reached (suc (suc (s.tries + gained))) (total req s + gained)
        (start req wrap s.level s.tries gained) (start-IsOn s gained low below) most (omega arith))

-- Below the last level of a table, and below the next level.
abbrev pub IsTraining : (ℕ → ℕ) → ℕ → Skill → Type 0
IsTraining req top s = (s.level < top) × (s.tries < req (suc s.level))

-- Where the table goes on to a last level `top`, and what was spent with the gain is less than all
-- its levels ask for, `addManaSpent` ends, everything that was spent grows by the gain, and the next
-- level is not reached.
pub add_mana_spent-total :
    (req : ℕ → ℕ) (top gained : ℕ) (s : Skill)
    → IsTable req top
    → top < 2 ^ 32
    → IsTraining req top s
    → total req s + gained < sum_req req top
    → (t : Skill) × (add_mana_spent req false gained s ≡ some t)
      × IsTraining req top t
      × (total req t ≡ total req s + gained)
unfolding add_mana_spent finish_mana
add_mana_spent-total req top gained s table few (low, below) most =
    let small : (l : ℕ) → l ≤ top → u32 l ≡ l = λ l le. omega arith in
    let grows : leb (req (u32 (suc s.level))) (req s.level) ≡ false =
      rw (small (suc s.level) (omega arith)) (ground (arith, table.0 s.level low)) in
    let (c, ran, ((low', curr, next, on, same, below'), reached)) =
      advanced req u32 top table small s gained low below most in
    elim (Bool-cases (gained == 0)) [
      | inl nothing ↦ (s, rw (grows, nothing) refl, (low, below), ground arith)
      | inr something ↦
          let high = table.1 in
          let exact : u64 (c.spent + c.amount) ≡ c.spent + c.amount = omega arith in
          (
            finish_mana s c,
            rw (grows, something, ran) refl,
            rw (on, exact) (low', omega arith),
            rw (on, exact) (omega arith),
          )
    ]

-- The same of `addSkillAdvance`, up to a last level below 2 ^ 16.
pub add_skill_advance-total :
    (req : ℕ → ℕ) (top gained : ℕ) (s : Skill)
    → IsTable req top
    → top < 2 ^ 16
    → IsTraining req top s
    → total req s + gained < sum_req req top
    → (t : Skill) × (add_skill_advance req gained s ≡ some t)
      × IsTraining req top t
      × (total req t ≡ total req s + gained)
unfolding add_skill_advance finish_skill
add_skill_advance-total req top gained s table few (low, below) most =
    let small : (l : ℕ) → l ≤ top → u16 l ≡ l = λ l le. omega arith in
    let grows : leb (req (u16 (suc s.level))) (req s.level) ≡ false =
      rw (small (suc s.level) (omega arith)) (ground (arith, table.0 s.level low)) in
    let (c, ran, ((low', curr, next, on, same, below'), reached)) =
      advanced req u16 top table small s gained low below most in
    elim (Bool-cases (gained == 0)) [
      | inl nothing ↦ (s, rw (grows, nothing) refl, (low, below), ground arith)
      | inr something ↦
          let high = table.1 in
          let exact : u64 (c.spent + c.amount) ≡ c.spent + c.amount = omega arith in
          (
            finish_skill s c,
            rw (grows, something, ran) refl,
            rw (on, exact) (low', omega arith),
            rw (on, exact) (omega arith),
          )
    ]
