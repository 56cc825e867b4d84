-- ===== src/Player/Training.antt =====
-- src/player.cpp: mana spent and magic levels, tries and skill levels. `req` is the vocation's table
-- (`Vocation::getReqMana`, or `getReqSkillTries` at a skill), which the code computes with floats.
-- Amounts are uint64_t, magic levels uint32_t, skill levels uint16_t. What the event on a gain makes of
-- the amount is an argument. Messages and scripts are left out.
pub mod Advance
pub mod Removal
use ot_tibia_teste.Common.{
  ℕ, zero, suc, ◌+◌, ◌-◌, ◌%◌, ◌^◌, Option, none, some, Bool, true, false, ltb, leb, ◌==◌,
  if◌then◌else◌, ◌>>=◌,
}
use ot_tibia_teste.Common.Words.{u8, u16, u32, u64, sub64}
use ot_tibia_teste.Player.Experience.{get_percent_level}

-- A level, what was done towards the next one, and the percentage that is shown.
pub record Skill : Type 0 where
  pub level : ℕ
  pub tries : ℕ
  pub percent : ℕ

-- The state of the loops of `addManaSpent` and `addSkillAdvance`: the level, what is spent on the next
-- one, the amount left, the two bounds, and whether no further level can be had.
pub record Course : Type 0 where
  pub level : ℕ
  pub spent : ℕ
  pub amount : ℕ
  pub curr : ℕ
  pub next : ℕ
  pub at_end : Bool

module _ (req : ℕ → ℕ) (wrap : ℕ → ℕ) where
  pub one_level : Course → Course
  one_level c =
      let level = wrap (suc c.level) in
      let next = req (wrap (suc level)) in
      record {
        level = level;
        spent = 0;
        amount = sub64 c.amount (sub64 c.next c.spent);
        curr = c.next;
        next = next;
        at_end = leb next c.next;
      }

  -- With fuel.
  unfoldable pub advance : ℕ → Course → Option Course
  advance zero c = none
  advance (suc fuel) c = elim (leb c.next (u64 (c.spent + c.amount))) [
    | false ↦ some c
    | true ↦ elim (leb (req (wrap (suc (wrap (suc c.level))))) c.next) [
      | true ↦ some (one_level c)
      | false ↦ advance fuel (one_level c)
    ]
  ]

  pub start : ℕ → ℕ → ℕ → Course
  start level spent amount = record {
    level = level;
    spent = spent;
    amount = amount;
    curr = req level;
    next = req (wrap (suc level));
    at_end = false;
  }

-- The end of `addManaSpent`: at the last level it returns at once.
pub finish_mana : Skill → Course → Skill
finish_mana s c = if c.at_end then record s { level = c.level; tries = c.spent } else record {
  level = c.level;
  tries = u64 (c.spent + c.amount);
  percent = if ltb c.curr c.next then get_percent_level (u64 (c.spent + c.amount)) c.next else 0;
}

-- `gained` is what the event makes of the amount; `refused` is the flag against gains.
unfoldable pub add_mana_spent : (ℕ → ℕ) → Bool → ℕ → Skill → Option Skill
add_mana_spent req refused gained s =
    if refused
    then some s
    else if leb (req (u32 (suc s.level))) (req s.level)
    then some s
    else if gained == 0
    then some s
    else advance req u32 (suc (suc (s.tries + gained))) (start req u32 s.level s.tries gained)
      >>= λ c. some (finish_mana s c)

-- The end of `addSkillAdvance`: at the last level nothing is left of the count.
pub finish_skill : Skill → Course → Skill
finish_skill s c =
    let tries = u64 (c.spent + (if c.at_end then 0 else c.amount)) in
    record {
      level = c.level;
      tries = tries;
      percent = if ltb c.curr c.next then get_percent_level tries c.next else 0;
    }

unfoldable pub add_skill_advance : (ℕ → ℕ) → ℕ → Skill → Option Skill
add_skill_advance req gained s =
    if leb (req (u16 (suc s.level))) (req s.level)
    then some s
    else if gained == 0
    then some s
    else advance req u16 (suc (suc (s.tries + gained))) (start req u16 s.level s.tries gained)
      >>= λ c. some (finish_skill s c)

-- The loop of `removeManaSpent`, with fuel: the level, what is spent, and the amount left.
unfoldable pub take_mana : (ℕ → ℕ) → ℕ → ℕ → ℕ → ℕ → Option (ℕ × ℕ × ℕ)
take_mana req zero level spent amount = none
take_mana req (suc fuel) level spent amount = elim (ltb spent amount) [
  | false ↦ some (level, spent, amount)
  | true ↦ elim (ltb 0 level) [
    | false ↦ some (level, spent, amount)
    | true ↦ take_mana req fuel (level - 1) (req level) (amount - spent)
  ]
]

pub finish_removal : (ℕ → ℕ) → ℕ × ℕ × ℕ → Skill
finish_removal req (level, spent, amount) =
    let left = sub64 spent amount in
    let next = req (u32 (suc level)) in
    record {
      level = level;
      tries = left;
      percent = if ltb (req level) next then get_percent_level left next else 0;
    }

unfoldable pub remove_mana_spent : (ℕ → ℕ) → ℕ → Skill → Option Skill
remove_mana_spent req amount s =
    if amount == 0
    then some s
    else take_mana req (suc s.level) s.level s.tries amount >>= λ r. some (finish_removal req r)

-- `MINIMUM_SKILL_LEVEL`
abbrev pub minimum_skill_level : ℕ
minimum_skill_level = 10

-- The loop of `removeSkillTries`, with fuel: the level, the tries, and the count left.
unfoldable pub take_tries : (ℕ → ℕ) → ℕ → ℕ → ℕ → ℕ → Option (ℕ × ℕ × ℕ)
take_tries req zero level tries count = none
take_tries req (suc fuel) level tries count = elim (ltb tries count) [
  | false ↦ some (level, tries, count)
  | true ↦ elim (leb level minimum_skill_level) [
    | true ↦ some (minimum_skill_level, 0, 0)
    | false ↦ take_tries req fuel (level - 1) (req level) (count - tries)
  ]
]

-- `std::max<int32_t>(0, tries - count)`: the difference is cut to 32 bits and read with its sign.
pub tries_left : ℕ → ℕ → ℕ
tries_left tries count = let low = u32 (sub64 tries count) in if leb (2 ^ 31) low then 0 else low

pub finish_tries : (ℕ → ℕ) → ℕ × ℕ × ℕ → Skill
finish_tries req (level, tries, count) =
    let left = tries_left tries count in
    record { level = level; tries = left; percent = get_percent_level left (req level) }

unfoldable pub remove_skill_tries : (ℕ → ℕ) → ℕ → Skill → Option Skill
remove_skill_tries req count s =
    take_tries req (suc s.level) s.level s.tries count >>= λ r. some (finish_tries req r)
