-- ===== src/Player/Experience/Loss.antt =====
-- src/player.cpp: `removeExperience` ends, and leaves the level that the experience asks for.
use ot_tibia_teste.Common.{
  ℕ, zero, suc, ◌+◌, ◌-◌, ◌^◌, ◌≤◌, ◌<◌, ◌≡◌, refl, sym, subst, Option, none, some, ◌||◌, ◌==◌,
  arith, Bool-cases, inl, inr,
}
use ot_tibia_teste.Common.Words.{sub64}
use ot_tibia_teste.Player.Experience.{
  get_exp_for_level, Vocation, Player, level_down, lose_levels, finish_loss, experience_left,
  remove_experience, add_experience, set_level_percent, refresh, update_base_speed,
}
use ot_tibia_teste.Player.Experience.Table.{get_exp_for_level_mono}
use ot_tibia_teste.Player.Experience.Gain.{IsLevelled, add_experience-IsLevelled}

abbrev Ended : Option (Player × ℕ) → Type 0
Ended none = ⊥
Ended (some r) = Unit

came_out : (r : Option (Player × ℕ)) → Ended r → (a : Player × ℕ) × (r ≡ some a)
came_out none h = absurd h
came_out (some a) h = (a, refl)

lowered :
    (v : Vocation) (p : Player)
    → ((level_down v p).level ≡ p.level - 1) × ((level_down v p).experience ≡ p.experience)
unfolding level_down
lowered v p = (refl, refl)

-- Each turn takes a level away, and the loop ends at level 1 at the latest.
lose_levels-Ended :
    (fuel : ℕ) (v : Vocation) (p : Player) (curr : ℕ)
    → p.level < fuel
    → Ended (lose_levels fuel v p curr)
unfolding lose_levels
lose_levels-Ended zero v p curr h = absurd (omega arith)
lose_levels-Ended (suc fuel) v p curr h = ground (
  arith,
  lowered v p,
  lose_levels-Ended fuel v (level_down v p) (get_exp_for_level (level_down v p).level),
)

-- The experience is not enough for the next level.
abbrev IsBelow : Player → ℕ → Type 0
IsBelow p curr =
    (1 ≤ p.level)
    × (p.level < 2 ^ 19)
    × (curr ≡ get_exp_for_level p.level)
    × (p.experience < get_exp_for_level (suc p.level))

abbrev Levelled : ℕ → Option (Player × ℕ) → Type 0
Levelled experience none = Unit
Levelled experience (some r) =
    (r.0.experience ≡ experience) × IsBelow r.0 r.1 × (get_exp_for_level r.0.level ≤ experience)

first_level : get_exp_for_level 1 ≡ 0
unfolding get_exp_for_level
first_level = refl

lower_step :
    (v : Vocation) (p : Player) (curr : ℕ)
    → IsBelow p curr
    → 1 < p.level
    → p.experience < curr
    → IsBelow (level_down v p) (get_exp_for_level (level_down v p).level)
lower_step v p curr b h less =
    let (level, experience) = lowered v p in
    let back : suc (p.level - 1) ≡ p.level = omega arith in
    rw (level, experience, back) (omega arith, omega (arith, b), refl, omega (arith, b))

lose_levels-Levelled :
    (fuel : ℕ) (v : Vocation) (p : Player) (curr : ℕ)
    → IsBelow p curr
    → Levelled p.experience (lose_levels fuel v p curr)
unfolding lose_levels
lose_levels-Levelled zero v p curr b = tt
lose_levels-Levelled (suc fuel) v p curr b = ground (
  arith,
  lowered v p,
  lower_step v p curr b,
  first_level,
  lose_levels-Levelled fuel v (level_down v p) (get_exp_for_level (level_down v p).level),
)

finish_loss-same :
    (v : Vocation) (old_level : ℕ) (r : Player × ℕ)
    → ((finish_loss v old_level r).level ≡ r.0.level)
      × ((finish_loss v old_level r).experience ≡ r.0.experience)
unfolding finish_loss set_level_percent refresh update_base_speed
finish_loss-same v old_level (p, curr) = ground arith

-- Whatever a player has and loses, `removeExperience` comes to its end.
pub remove_experience-ends :
    (v : Vocation) (exp lost : ℕ) (p : Player)
    → (q : Player) × (remove_experience v exp lost p ≡ some q)
unfolding remove_experience
remove_experience-ends v exp lost p = elim (Bool-cases (p.experience == 0 || exp == 0)) [
  | inl e ↦ (p, rw e refl)
  | inr e ↦ elim (Bool-cases (lost == 0)) [
    | inl none_lost ↦ (p, rw (e, none_lost) refl)
    | inr some_lost ↦
        let poorer = record p { experience = experience_left p.experience lost } in
        let (after, ran) =
          came_out (lose_levels (suc p.level) v poorer (get_exp_for_level p.level))
            (lose_levels-Ended (suc p.level) v poorer (get_exp_for_level p.level) (omega arith)) in
        (finish_loss v p.level after, rw (e, some_lost, ran) refl)
  ]
]

experience_left_lem :
    (experience lost : ℕ)
    → experience < 2 ^ 63
    → lost < 2 ^ 63
    → experience_left experience lost ≡ experience - lost
unfolding experience_left sub64
experience_left_lem experience lost h k = ground arith

-- A player of the level that the experience asks for loses as much as there is at most, and has the
-- level that the rest asks for. Experience and loss are below 2 ^ 63; the event takes nothing from
-- a loss of nothing.
pub remove_experience-IsLevelled :
    (v : Vocation) (exp lost : ℕ) (p : Player)
    → IsLevelled p
    → p.experience < 2 ^ 63
    → lost < 2 ^ 63
    → (exp ≡ 0 → lost ≡ 0)
    → (q : Player) × (remove_experience v exp lost p ≡ some q)
      × IsLevelled q
      × (q.experience ≡ p.experience - lost)
unfolding remove_experience
remove_experience-IsLevelled v exp lost p h small few nothing =
    elim (Bool-cases (p.experience == 0 || exp == 0)) [
      | inl e ↦ (p, rw e refl, h, ground arith)
      | inr e ↦ elim (Bool-cases (lost == 0)) [
        | inl none_lost ↦ (p, rw (e, none_lost) refl, h, ground arith)
        | inr some_lost ↦
            let rest = experience_left_lem p.experience lost small few in
            let poorer = record p { experience = experience_left p.experience lost } in
            let curr = get_exp_for_level p.level in
            let (after, ran) =
              came_out (lose_levels (suc p.level) v poorer curr)
                (lose_levels-Ended (suc p.level) v poorer curr (omega arith)) in
            let (same, (low, high, now, less), above) : Levelled poorer.experience (some after) =
              subst (Levelled poorer.experience) ran (
                lose_levels-Levelled (suc p.level) v poorer curr
                  (h.0, h.1, refl, omega (arith, h, rest))) in
            let (level, experience) = finish_loss-same v p.level after in
            (
              finish_loss v p.level after,
              rw (e, some_lost, ran) refl,
              rw (level, experience) (low, high, omega (arith, same, above), less),
              ground arith,
            )
      ]
    ]

above_level :
    (p q : Player)
    → IsLevelled p
    → IsLevelled q
    → p.experience ≡ q.experience
    → ¬ (p.level < q.level)
above_level p q h k e less =
    let same : suc p.level + (q.level - suc p.level) ≡ q.level = omega arith in
    let le =
      get_exp_for_level_mono (suc p.level) (q.level - suc p.level) (omega arith)
        (omega (arith, k)) in
    let le' : get_exp_for_level (suc p.level) ≤ get_exp_for_level q.level = rw (← same) le in
    omega (arith, h, k)

-- A player who gains experience and loses the same amount again, as the events allow it, has the
-- level and the experience from before. The gain would not reach level 2 ^ 19 or experience 2 ^ 63.
pub remove_experience-add_experience :
    (v : Vocation) (amount : ℕ) (p : Player)
    → IsLevelled p
    → p.experience + amount < get_exp_for_level (2 ^ 19)
    → p.experience + amount < 2 ^ 63
    → (q r : Player) × (add_experience v amount p ≡ some q)
      × (remove_experience v amount amount q ≡ some r)
      × (r.level ≡ p.level)
      × (r.experience ≡ p.experience)
remove_experience-add_experience v amount p h top small =
    let (q, gain, levelled, sum) = add_experience-IsLevelled v amount p h top in
    let (r, loss, levelled', rest) =
      remove_experience-IsLevelled v amount amount q levelled (omega arith) (omega arith)
        (λ e. e) in
    let back : r.experience ≡ p.experience = omega arith in
    let one = above_level r p levelled' h back in
    let other = above_level p r h levelled' (sym back) in (q, r, gain, loss, omega arith, back)
