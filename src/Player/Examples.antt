-- ===== src/Player/Examples.antt =====
-- Tests of `Player`, and its theorems at concrete inputs.
use ot_tibia_teste.Common.{ℕ, ◌+◌, ◌-◌, ◌*◌, ◌%◌, ◌^◌, ◌≤◌, ◌<◌, ◌≡◌, refl, some, false, arith}
use ot_tibia_teste.Player.Experience.{
  get_exp_for_level, Vocation, Player, add_experience, remove_experience,
}
use ot_tibia_teste.Player.Experience.Gain.{
  IsLevelled, add_experience-ends, add_experience-IsLevelled,
}
use ot_tibia_teste.Player.Experience.Loss.{remove_experience-add_experience}
use ot_tibia_teste.Player.Training.{
  Skill, add_mana_spent, remove_mana_spent, remove_skill_tries, minimum_skill_level,
}
use ot_tibia_teste.Player.Training.Advance.{total, IsTable, IsTraining, add_mana_spent-total}
use ot_tibia_teste.Player.Training.Removal.{remove_mana_spent-total, remove_skill_tries_lem}

abbrev knight : Vocation
knight = record { hp_gain = 15; mana_gain = 5; cap_gain = 2500; base_speed = 220 }

-- At level 8 of 16800 experience points.
abbrev hero : Player
hero = record {
  level = 8;
  experience = 17000;
  level_percent = 0;
  health = 185;
  health_max = 185;
  mana = 35;
  mana_max = 35;
  capacity = 47000;
  base_speed = 234;
  var_max_hit_points = 0;
  var_max_mana_points = 0;
  has_max_speed = false;
}

level_nine : (get_exp_for_level 8 ≡ 16800) × (get_exp_for_level 9 ≡ 25600)
unfolding get_exp_for_level
level_nine = (refl, refl)

hero-IsLevelled : IsLevelled hero
unfolding get_exp_for_level
hero-IsLevelled = (omega arith, omega arith, omega arith, omega arith)

far_below : hero.experience + 9000 < get_exp_for_level (2 ^ 19)
unfolding get_exp_for_level
far_below = omega arith

add_experience-ends_example : (q : Player) × (add_experience knight 9000 hero ≡ some q)
add_experience-ends_example = add_experience-ends knight 9000 hero

add_experience-IsLevelled_example :
    (q : Player) × (add_experience knight 9000 hero ≡ some q)
    × IsLevelled q
    × (q.experience ≡ 17000 + 9000)
add_experience-IsLevelled_example =
    add_experience-IsLevelled knight 9000 hero hero-IsLevelled far_below

remove_experience-add_experience_example :
    (q r : Player) × (add_experience knight 9000 hero ≡ some q)
    × (remove_experience knight 9000 9000 q ≡ some r)
    × (r.level ≡ 8)
    × (r.experience ≡ 17000)
remove_experience-add_experience_example =
    remove_experience-add_experience knight 9000 hero hero-IsLevelled far_below (omega arith)

-- A table of levels that ask for more and more.
abbrev costs : ℕ → ℕ
costs l = 1600 * l

costs-IsTable : IsTable costs 20
costs-IsTable = (λ l h. omega arith, omega arith)

abbrev mage : Skill
mage = record { level = 12; tries = 800; percent = 3 }

mage-IsTraining : IsTraining costs 20 mage
mage-IsTraining = (omega arith, omega arith)

add_mana_spent-total_example :
    (t : Skill) × (add_mana_spent costs false 30000 mage ≡ some t)
    × IsTraining costs 20 t
    × (total costs t ≡ total costs mage + 30000)
add_mana_spent-total_example =
    add_mana_spent-total costs 20 30000 mage costs-IsTable (omega arith) mage-IsTraining
      (omega arith)

remove_mana_spent-total_example :
    (t : Skill) × (remove_mana_spent costs 900 mage ≡ some t)
    × (900 ≤ total costs mage → total costs t + 900 ≡ total costs mage)
    × (total costs mage < 900 → (t.level ≡ 0) × (t.tries + 900 ≡ 2 ^ 64 + total costs mage))
remove_mana_spent-total_example = remove_mana_spent-total costs 900 mage (omega arith) (omega arith)

-- A skill of so many tries that they do not fit an int32_t.
abbrev archer : Skill
archer = record { level = 100; tries = 3000000000; percent = 50 }

remove_skill_tries_lem_example :
    (t : Skill) × (remove_skill_tries costs 1 archer ≡ some t)
    × (minimum_skill_level ≤ t.level)
    × (1 ≤ archer.tries
        → archer.tries - 1 < 2 ^ 31
        → (t.level ≡ archer.level) × (t.tries + 1 ≡ archer.tries))
    × (1 ≤ archer.tries
        → (archer.tries - 1) % 2 ^ 32 < 2 ^ 31
        → (t.level ≡ archer.level) × (t.tries ≡ (archer.tries - 1) % 2 ^ 32))
    × (1 ≤ archer.tries
        → 2 ^ 31 ≤ (archer.tries - 1) % 2 ^ 32
        → (t.level ≡ archer.level) × (t.tries ≡ 0))
remove_skill_tries_lem_example = remove_skill_tries_lem costs 1 archer (omega arith) (omega arith)
