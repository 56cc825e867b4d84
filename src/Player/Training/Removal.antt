-- ===== src/Player/Training/Removal.antt =====
-- src/player.cpp: what `removeManaSpent` and `removeSkillTries` take away, and where they go wrong.
use ot_tibia_teste.Common.{
  ℕ, zero, suc, ◌+◌, ◌-◌, ◌%◌, ◌^◌, ◌≤◌, ◌<◌, ◌≡◌, ◌⊎◌, refl, Option, none, some, ◌==◌, arith,
  Bool-cases, inl, inr,
}
use ot_tibia_teste.Common.Words.{sub64}
use ot_tibia_teste.Player.Training.{
  Skill, take_mana, finish_removal, remove_mana_spent, minimum_skill_level, take_tries, tries_left,
  finish_tries, remove_skill_tries,
}
use ot_tibia_teste.Player.Training.Advance.{sum_req, total}

le_cases : (a b : ℕ) → (a ≤ b) ⊎ (b < a)
le_cases a b = ground arith

-- The loop of `removeManaSpent` came to its end: what is left to take is the same, and it is there, or
-- the level is 0.
abbrev Taken : (ℕ → ℕ) → ℕ → ℕ → Option (ℕ × ℕ × ℕ) → Type 0
Taken req sum amount none = ⊥
Taken req sum amount (some r) =
    (sum_req req r.0 + r.1 + amount ≡ sum + r.2) × (r.2 ≤ amount) × ((r.2 ≤ r.1) ⊎ (r.0 ≡ 0))

take_mana-Taken :
    (req : ℕ → ℕ) (fuel level spent amount all sum : ℕ)
    → level < fuel
    → amount ≤ all
    → sum_req req level + spent + all ≡ sum + amount
    → Taken req sum all (take_mana req fuel level spent amount)
unfolding take_mana
take_mana-Taken req zero level spent amount all sum h le same = absurd (omega arith)
take_mana-Taken req (suc fuel) zero spent amount all sum h le same = ground arith
take_mana-Taken req (suc fuel) (suc level) spent amount all sum h le same =
    ground (arith, take_mana-Taken req fuel level (req (suc level)) (amount - spent) all sum)

mana_came_out :
    (req : ℕ → ℕ) (sum amount : ℕ) (r : Option (ℕ × ℕ × ℕ))
    → Taken req sum amount r
    → (a : ℕ × ℕ × ℕ) × (r ≡ some a) × Taken req sum amount (some a)
mana_came_out req sum amount none h = absurd h
mana_came_out req sum amount (some a) h = (a, refl, h)

removal_end :
    (req : ℕ → ℕ) (amount sum level spent left : ℕ)
    → sum < 2 ^ 64
    → amount < 2 ^ 64
    → sum_req req level + spent + amount ≡ sum + left
    → left ≤ amount
    → (left ≤ spent) ⊎ (level ≡ 0)
    → (amount ≤ sum → sum_req req level + sub64 spent left + amount ≡ sum)
      × (sum < amount → (level ≡ 0) × (sub64 spent left + amount ≡ 2 ^ 64 + sum))
unfolding sub64
removal_end req amount sum level spent left bound few same le (inl enough) =
    (λ h. omega arith, λ h. absurd (omega arith))
removal_end req amount sum zero spent left bound few same le (inr bottom) =
    (λ h. omega arith, λ h. (refl, omega arith))
removal_end req amount sum (suc level) spent left bound few same le (inr bottom) =
    absurd (omega arith)

-- `removeManaSpent` ends. Where not more is to be taken than was spent, exactly that is taken. Where
-- more is, the level is 0 and the mana spent wraps around: the subtraction has no guard.
pub remove_mana_spent-total :
    (req : ℕ → ℕ) (amount : ℕ) (s : Skill)
    → total req s < 2 ^ 64
    → amount < 2 ^ 64
    → (t : Skill) × (remove_mana_spent req amount s ≡ some t)
      × (amount ≤ total req s → total req t + amount ≡ total req s)
      × (total req s < amount → (t.level ≡ 0) × (t.tries + amount ≡ 2 ^ 64 + total req s))
unfolding remove_mana_spent finish_removal sub64
remove_mana_spent-total req amount s bound few = elim (Bool-cases (amount == 0)) [
  | inl nothing ↦ (s, rw nothing refl, ground arith, λ h. absurd (ground arith))
  | inr something ↦
      let ((level, spent, left), ran, (same, le, stop)) = mana_came_out req (total req s) amount _ (
        take_mana-Taken req (suc s.level) s.level s.tries amount amount (total req s) (omega arith)
          (omega arith) (omega arith)) in
      let (fits, wraps) =
        removal_end req amount (total req s) level spent left bound few same le stop in
      (finish_removal req (level, spent, left), rw (something, ran) refl, fits, wraps)
]

-- The loop of `removeSkillTries` came to its end.
abbrev Settled : Option (ℕ × ℕ × ℕ) → Type 0
Settled none = ⊥
Settled (some r) = minimum_skill_level ≤ r.0

take_tries-Settled :
    (req : ℕ → ℕ) (fuel level tries count : ℕ)
    → minimum_skill_level ≤ level
    → level < fuel
    → Settled (take_tries req fuel level tries count)
unfolding take_tries
take_tries-Settled req zero level tries count least h = absurd (omega arith)
take_tries-Settled req (suc fuel) level tries count least h =
    ground (arith, take_tries-Settled req fuel (level - 1) (req level) (count - tries))

take_tries-enough :
    (req : ℕ → ℕ) (fuel level tries count : ℕ)
    → count ≤ tries
    → take_tries req (suc fuel) level tries count ≡ some (level, tries, count)
unfolding take_tries
take_tries-enough req fuel level tries count le = ground arith

tries_left_lem :
    (tries count : ℕ)
    → tries < 2 ^ 64
    → count ≤ tries
    → (tries - count < 2 ^ 31 → tries_left tries count + count ≡ tries)
      × ((tries - count) % 2 ^ 32 < 2 ^ 31 → tries_left tries count ≡ (tries - count) % 2 ^ 32)
      × (2 ^ 31 ≤ (tries - count) % 2 ^ 32 → tries_left tries count ≡ 0)
unfolding tries_left sub64
tries_left_lem tries count bound le = (λ h. ground arith, λ h. ground arith, λ h. ground arith)

tries_came_out :
    (r : Option (ℕ × ℕ × ℕ)) → Settled r → (a : ℕ × ℕ × ℕ) × (r ≡ some a) × Settled (some a)
tries_came_out none h = absurd h
tries_came_out (some a) h = (a, refl, h)

-- `removeSkillTries` ends at a level that is not below the least one, if it begins there. Where the
-- tries of the level are enough for the count, the level stays, and the tries left are the rest, if it
-- fits an int32_t. In general they are the low 32 bits of the rest, if these are less than 2 ^ 31, and 0
-- otherwise: a larger rest is lost, wholly or in part.
pub remove_skill_tries_lem :
    (req : ℕ → ℕ) (count : ℕ) (s : Skill)
    → minimum_skill_level ≤ s.level
    → s.tries < 2 ^ 64
    → (t : Skill) × (remove_skill_tries req count s ≡ some t)
      × (minimum_skill_level ≤ t.level)
      × (count ≤ s.tries
          → s.tries - count < 2 ^ 31
          → (t.level ≡ s.level) × (t.tries + count ≡ s.tries))
      × (count ≤ s.tries
          → (s.tries - count) % 2 ^ 32 < 2 ^ 31
          → (t.level ≡ s.level) × (t.tries ≡ (s.tries - count) % 2 ^ 32))
      × (count ≤ s.tries
          → 2 ^ 31 ≤ (s.tries - count) % 2 ^ 32
          → (t.level ≡ s.level) × (t.tries ≡ 0))
unfolding remove_skill_tries finish_tries
remove_skill_tries_lem req count s least bound =
    let ((level, tries, left), ran, low) =
      tries_came_out _
        (take_tries-Settled req (suc s.level) s.level s.tries count least (omega arith)) in
    elim (le_cases count s.tries) [
      | inl le ↦
          let (kept, low_bits, negative) = tries_left_lem s.tries count bound le in
          (
            finish_tries req (s.level, s.tries, count),
            rw (take_tries-enough req s.level s.level s.tries count le) refl,
            least,
            λ c h. (refl, kept h),
            λ c h. (refl, low_bits h),
            λ c h. (refl, negative h),
          )
      | inr more ↦ (
        finish_tries req (level, tries, left),
        rw ran refl,
        low,
        λ le. absurd (omega arith),
        λ le. absurd (omega arith),
        λ le. absurd (omega arith),
      )
    ]
