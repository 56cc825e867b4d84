-- ===== src/Player/Experience.antt =====
-- src/player.h, src/player.cpp: experience and levels. uint64_t and uint32_t wrap; an int32_t is the
-- uint32_t with its bits. What the event on a gain or a loss makes of the amount is an argument. The
-- messages, the speed that clients are told and the party's level check are left out.
pub mod Table
pub mod Gain
pub mod Loss
use ot_tibia_teste.Common.{
  ℕ, zero, suc, ◌+◌, ◌-◌, ◌*◌, ◌/◌, ◌%◌, ◌^◌, Option, none, some, Bool, true, false, ◌||◌, ltb, leb,
  ◌==◌, if◌then◌else◌, ◌>>=◌,
}
use ot_tibia_teste.Common.Words.{u8, u32, u64, add32, sub32, sub64}

unfoldable pub get_exp_for_level : ℕ → ℕ
unfolding sub64
get_exp_for_level lv =
    u64 (u64 (sub64 (u64 (u64 (u64 (sub64 lv 6 * lv) + 17) * lv)) 12 / 6 * 100) * 4)

unfoldable pub get_percent_level : ℕ → ℕ → ℕ
get_percent_level count next =
    if next == 0
    then 0
    else let result = u8 (u64 (count * 100) / next) in if ltb 100 result then 0 else result

-- What a vocation gives at a level.
pub record Vocation : Type 0 where
  pub hp_gain : ℕ
  pub mana_gain : ℕ
  pub cap_gain : ℕ
  pub base_speed : ℕ

pub record Player : Type 0 where
  pub level : ℕ
  pub experience : ℕ
  pub level_percent : ℕ
  pub health : ℕ
  pub health_max : ℕ
  pub mana : ℕ
  pub mana_max : ℕ
  pub capacity : ℕ
  pub base_speed : ℕ
  pub var_max_hit_points : ℕ
  pub var_max_mana_points : ℕ
  pub has_max_speed : Bool

-- `std::max<int32_t>(least, bits)` for a least value of 0 or 1.
pub max_int32 : ℕ → ℕ → ℕ
max_int32 least bits = if leb (2 ^ 31) bits || leb bits least then least else bits

unfoldable pub get_max_health : Player → ℕ
unfolding max_int32 add32
get_max_health p = max_int32 1 (add32 p.health_max p.var_max_hit_points)

unfoldable pub get_max_mana : Player → ℕ
unfolding max_int32 add32
get_max_mana p = max_int32 0 (add32 p.mana_max p.var_max_mana_points)

-- `PLAYER_MAX_SPEED`
abbrev pub player_max_speed : ℕ
player_max_speed = 1500

unfoldable pub update_base_speed : Vocation → Player → Player
unfolding add32 sub32
update_base_speed v p = record p {
  base_speed =
      if p.has_max_speed then player_max_speed else add32 v.base_speed (u32 (2 * sub32 p.level 1));
}

-- What follows when the level has changed.
unfoldable pub refresh : Vocation → Player → Player
unfolding update_base_speed get_max_health get_max_mana
refresh v p = update_base_speed v (record p { health = get_max_health p; mana = get_max_mana p })

unfoldable pub set_level_percent : ℕ → ℕ → Player → Player
unfolding get_percent_level sub64
set_level_percent curr next p = record p {
  level_percent =
      if ltb curr next then get_percent_level (sub64 p.experience curr) (sub64 next curr) else 0;
}

unfoldable pub level_up : Vocation → Player → Player
unfolding add32
level_up v p = record p {
  level = u32 (suc p.level);
  health_max = add32 p.health_max v.hp_gain;
  health = add32 p.health v.hp_gain;
  mana_max = add32 p.mana_max v.mana_gain;
  mana = add32 p.mana v.mana_gain;
  capacity = add32 p.capacity v.cap_gain;
}

-- The loop of `addExperience`, with fuel: the player, `currLevelExp` and `nextLevelExp` after it.
unfoldable pub gain_levels : ℕ → Vocation → Player → ℕ → ℕ → Option (Player × ℕ × ℕ)
gain_levels zero v p curr next = none
gain_levels (suc fuel) v p curr next = elim (leb next p.experience) [
  | false ↦ some (p, curr, next)
  | true ↦
      let raised = level_up v p in
      let next' = get_exp_for_level (u32 (suc raised.level)) in
      elim (leb next' next) [
        | true ↦ some (raised, next, next')
        | false ↦ gain_levels fuel v raised next next'
      ]
]

-- The end of `addExperience`, when the loop is done.
unfoldable pub finish_gain : Vocation → ℕ → Player × ℕ × ℕ → Player
finish_gain v prev_level (p, curr, next) =
    set_level_percent curr next (if p.level == prev_level then p else refresh v p)

-- `gained` is what the event makes of the amount.
unfoldable pub add_experience : Vocation → ℕ → Player → Option Player
add_experience v gained p =
    let curr = get_exp_for_level p.level in
    let next = get_exp_for_level (u32 (suc p.level)) in
    if leb next curr
    then some (record p { level_percent = 0 })
    else if gained == 0
    then some p
    else let richer = record p { experience = u64 (p.experience + gained) } in
      gain_levels (suc richer.experience) v richer curr next >>= λ after.
      some (finish_gain v p.level after)

unfoldable pub level_down : Vocation → Player → Player
unfolding sub32 max_int32
level_down v p = record p {
  level = p.level - 1;
  health_max = max_int32 0 (sub32 p.health_max v.hp_gain);
  mana_max = max_int32 0 (sub32 p.mana_max v.mana_gain);
  capacity = max_int32 0 (sub32 p.capacity v.cap_gain);
}

-- The loop of `removeExperience`, with fuel: the player and `currLevelExp` after it.
unfoldable pub lose_levels : ℕ → Vocation → Player → ℕ → Option (Player × ℕ)
lose_levels zero v p curr = none
lose_levels (suc fuel) v p curr = elim (ltb 1 p.level) [
  | false ↦ some (p, curr)
  | true ↦ elim (ltb p.experience curr) [
    | false ↦ some (p, curr)
    | true ↦
        let lowered = level_down v p in lose_levels fuel v lowered (get_exp_for_level lowered.level)
  ]
]

-- `std::max<int64_t>(0, experience - exp)`, of the difference as an int64_t.
unfoldable pub experience_left : ℕ → ℕ → ℕ
unfolding sub64
experience_left experience lost =
    let left = sub64 experience lost in if leb (2 ^ 63) left then 0 else left

unfoldable pub finish_loss : Vocation → ℕ → Player × ℕ → Player
finish_loss v old_level (p, curr) =
    set_level_percent curr (get_exp_for_level (u32 (suc p.level)))
      (if p.level == old_level then p else refresh v p)

-- `exp` is the amount asked for, `lost` what the event makes of it.
unfoldable pub remove_experience : Vocation → ℕ → ℕ → Player → Option Player
remove_experience v exp lost p =
    if p.experience == 0 || exp == 0
    then some p
    else if lost == 0
    then some p
    else let poorer = record p { experience = experience_left p.experience lost } in
      lose_levels (suc p.level) v poorer (get_exp_for_level p.level) >>= λ after.
      some (finish_loss v p.level after)
