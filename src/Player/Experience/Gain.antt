-- ===== src/Player/Experience/Gain.antt =====
-- src/player.cpp: `addExperience` ends, and leaves the level that the experience asks for.
use ot_tibia_teste.Common.{
  ℕ, zero, suc, ◌+◌, ◌^◌, ◌≤◌, ◌<◌, ◌≡◌, refl, ap, subst, Option, none, some, false, leb, ◌==◌,
  arith, Bool-cases, inl, inr,
}
use ot_tibia_teste.Common.Words.{u32, u64}
use ot_tibia_teste.Player.Experience.{
  get_exp_for_level, Vocation, Player, level_up, gain_levels, finish_gain, add_experience,
  set_level_percent, refresh, update_base_speed,
}
use ot_tibia_teste.Player.Experience.Table.{get_exp_for_level_up}

-- The experience is that of the level, and the level is one of those without overflow.
abbrev pub IsLevelled : Player → Type 0
IsLevelled p =
    (1 ≤ p.level)
    × (p.level < 2 ^ 19)
    × (get_exp_for_level p.level ≤ p.experience)
    × (p.experience < get_exp_for_level (suc p.level))

-- The loop came to its end.
abbrev Ended : Option (Player × ℕ × ℕ) → Type 0
Ended none = ⊥
Ended (some r) = Unit

came_out : (r : Option (Player × ℕ × ℕ)) → Ended r → (a : Player × ℕ × ℕ) × (r ≡ some a)
came_out none h = absurd h
came_out (some a) h = (a, refl)

same_experience : (v : Vocation) (p : Player) → (level_up v p).experience ≡ p.experience
unfolding level_up
same_experience v p = refl

-- Each turn asks for more experience than the one before it, and the loop ends where that is more
-- than there is.
gain_levels-Ended :
    (fuel : ℕ) (v : Vocation) (p : Player) (curr next : ℕ)
    → 0 < fuel
    → suc p.experience < next + fuel
    → Ended (gain_levels fuel v p curr next)
unfolding gain_levels
gain_levels-Ended zero v p curr next k h = absurd (omega arith)
gain_levels-Ended (suc fuel) v p curr next k h =
    let next' = get_exp_for_level (u32 (suc (level_up v p).level)) in
    ground (arith, same_experience v p, gain_levels-Ended fuel v (level_up v p) next next')

-- What the loop keeps: the two bounds are those of the level.
abbrev IsBetween : Player → ℕ → ℕ → Type 0
IsBetween p curr next =
    (1 ≤ p.level)
    × (p.level < 2 ^ 19)
    × (curr ≡ get_exp_for_level p.level)
    × (next ≡ get_exp_for_level (suc p.level))
    × (curr ≤ p.experience)

abbrev Levelled : ℕ → Option (Player × ℕ × ℕ) → Type 0
Levelled experience none = Unit
Levelled experience (some r) =
    (r.0.experience ≡ experience) × IsBetween r.0 r.1 r.2 × (r.0.experience < r.2)

next_level : (v : Vocation) (p : Player) → p.level < 2 ^ 19 → (level_up v p).level ≡ suc p.level
unfolding level_up
next_level v p h = omega arith

not_last : (lv : ℕ) → lv ≤ 2 ^ 19 → get_exp_for_level lv < get_exp_for_level (2 ^ 19) → lv < 2 ^ 19
not_last lv le less = grind arith

next_step :
    (v : Vocation) (p : Player) (curr next : ℕ)
    → IsBetween p curr next
    → p.experience < get_exp_for_level (2 ^ 19)
    → next ≤ p.experience
    → IsBetween (level_up v p) next (get_exp_for_level (u32 (suc (level_up v p).level)))
      × (next < get_exp_for_level (u32 (suc (level_up v p).level)))
next_step v p curr next (low, high, now, then_, above) top le =
    let here = next_level v p high in
    let below = not_last (suc p.level) (omega arith) (omega arith) in
    let exact : u32 (suc (level_up v p).level) ≡ suc (suc p.level) = omega arith in
    let up = get_exp_for_level_up (suc p.level) (omega arith) below in
    rw (exact, here)
      ((omega arith, below, then_, refl, omega (arith, same_experience v p)), omega arith)

gain_levels-Levelled :
    (fuel : ℕ) (v : Vocation) (p : Player) (curr next : ℕ)
    → IsBetween p curr next
    → p.experience < get_exp_for_level (2 ^ 19)
    → Levelled p.experience (gain_levels fuel v p curr next)
unfolding gain_levels
gain_levels-Levelled zero v p curr next b top = tt
gain_levels-Levelled (suc fuel) v p curr next b top = ground (
  arith,
  same_experience v p,
  next_step v p curr next b top,
  gain_levels-Levelled fuel v (level_up v p) next
      (get_exp_for_level (u32 (suc (level_up v p).level))),
)

pub last_lt : get_exp_for_level (2 ^ 19) < 2 ^ 64
unfolding get_exp_for_level
last_lt = omega arith

finish_gain-same :
    (v : Vocation) (prev_level : ℕ) (r : Player × ℕ × ℕ)
    → ((finish_gain v prev_level r).level ≡ r.0.level)
      × ((finish_gain v prev_level r).experience ≡ r.0.experience)
unfolding finish_gain set_level_percent refresh update_base_speed
finish_gain-same v prev_level (p, curr, next) = ground arith

-- Whatever a player has and gains, `addExperience` comes to its end.
pub add_experience-ends :
    (v : Vocation) (gained : ℕ) (p : Player) → (q : Player) × (add_experience v gained p ≡ some q)
unfolding add_experience
add_experience-ends v gained p =
    let curr = get_exp_for_level p.level in
    let next = get_exp_for_level (u32 (suc p.level)) in
    elim (Bool-cases (leb next curr)) [
      | inl e ↦ (record p { level_percent = 0 }, rw e refl)
      | inr e ↦ elim (Bool-cases (gained == 0)) [
        | inl none_gained ↦ (p, rw (e, none_gained) refl)
        | inr some_gained ↦
            let richer = record p { experience = u64 (p.experience + gained) } in
            let (after, ran) = came_out (gain_levels (suc richer.experience) v richer curr next) (
              gain_levels-Ended (suc richer.experience) v richer curr next (omega arith)
                (ground arith)) in
            (finish_gain v p.level after, rw (e, some_gained, ran) refl)
      ]
    ]

-- A player of the level that the experience asks for, who gains less than would reach level 2 ^ 19,
-- has the sum, and the level that it asks for.
pub add_experience-IsLevelled :
    (v : Vocation) (gained : ℕ) (p : Player)
    → IsLevelled p
    → p.experience + gained < get_exp_for_level (2 ^ 19)
    → (q : Player) × (add_experience v gained p ≡ some q)
      × IsLevelled q
      × (q.experience ≡ p.experience + gained)
unfolding add_experience
add_experience-IsLevelled v gained p h top =
    let curr = get_exp_for_level p.level in
    let next = get_exp_for_level (u32 (suc p.level)) in
    let exact : u32 (suc p.level) ≡ suc p.level = omega (arith, h) in
    let grows : leb next curr ≡ false = rw exact (ground arith) in
    elim (Bool-cases (gained == 0)) [
      | inl none_gained ↦ (p, rw (grows, none_gained) refl, h, ground arith)
      | inr some_gained ↦
          let richer = record p { experience = u64 (p.experience + gained) } in
          let sum : u64 (p.experience + gained) ≡ p.experience + gained =
            omega (arith, last_lt, top) in
          let (after, ran) = came_out (gain_levels (suc richer.experience) v richer curr next) (
            gain_levels-Ended (suc richer.experience) v richer curr next (omega arith)
              (ground arith)) in
          let (same, (low, high, now, then_, above), less) : Levelled richer.experience
              (some after) =
            subst (Levelled richer.experience) ran (
              gain_levels-Levelled (suc richer.experience) v richer curr next
                (h.0, h.1, refl, ap get_exp_for_level exact, omega (arith, h, sum))
                (omega (arith, sum, top))) in
          let (level, experience) = finish_gain-same v p.level after in
          (
            finish_gain v p.level after,
            rw (grows, some_gained, ran) refl,
            rw (level, experience) (low, high, ground arith, ground arith),
            ground arith,
          )
    ]
