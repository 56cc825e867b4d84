-- ===== src/Conditions/Storage.antt =====
-- src/condition.cpp: `serialize`, `unserialize` and `createCondition` of a stream; src/iologindata.cpp:
-- the conditions of a player. The codes are those of `ConditionAttr_t`.
use ot_tibia_teste.Common.{
  ℕ, zero, suc, ◌+◌, ◌*◌, ◌/◌, ◌%◌, ◌^◌, List, [], ◌∷◌, ◌++◌, true, false, not, ◌==◌, if◌then◌else◌,
  Option, none, some, length,
}
use ot_tibia_teste.Common.Words.{u8, u32, add32}
use ot_tibia_teste.Streams.{read, skip}
use ot_tibia_teste.Conditions.{
  Attributes, Regeneration, Soul, IntervalInfo, Damage, Speed, Outfit, Light, Extra, generic,
  invisible, spell_cooldown, spell_group_cooldown, attributes, regeneration, soul, damage, speed,
  outfit, light, drunk, Condition, forever, set_ticks,
}

-- What is left of the stream comes with the condition. `refused` is the result false; `overrun` is a write behind the end of an array, and `stuck` that the
-- fuel is used up.
pub data Outcome : Type 0 where
  done : Condition → List ℕ → Outcome
  refused : List ℕ → Outcome
  overrun stuck : Outcome

-- A read of `n` bytes, and what is made of the value.
unfoldable pub stored : ℕ → List ℕ → (ℕ → Condition) → Outcome
stored n s f = elim (read n s) [ none ↦ refused s | some (v, rest) ↦ done (f v) rest ]

-- `array[index] = value`
unfoldable pub set_elem : List ℕ → ℕ → ℕ → Option (List ℕ)
set_elem [] i v = none
set_elem (x ∷ xs) zero v = some (v ∷ xs)
set_elem (x ∷ xs) (suc i) v = elim (set_elem xs i v) [ none ↦ none | some ys ↦ some (x ∷ ys) ]

-- `propStream.read<int32_t>(array[index])`: where the read fails nothing is written.
unfoldable pub stored_at : List ℕ → List ℕ → ℕ → (List ℕ → Condition) → Outcome
stored_at s xs i f = elim (read 4 s) [
  | none ↦ refused s
  | some (v, rest) ↦ elim (set_elem xs i v) [ none ↦ overrun | some ys ↦ done (f ys) rest ]
]

-- `Condition::unserializeProp`
unfoldable pub unserialize_base : ℕ → Condition → List ℕ → Outcome
unserialize_base attr c s =
    if attr == 1
    then stored 4 s (λ v. record c { condition_type = v })
    else if attr == 2
    then stored 4 s (λ v. record c { id = u8 v })
    else if attr == 3
    then stored 4 s (λ v. record c { ticks = v })
    else if attr == 26
    then stored 1 s (λ v. record c { is_buff = not (v == 0) })
    else if attr == 27
    then stored 4 s (λ v. record c { sub_id = v })
    else if attr == 28
    then stored 1 s (λ v. record c { aggressive = not (v == 0) })
    else if attr == 254
    then done c s
    else refused s

-- `ConditionAttributes::unserializeProp`
unfoldable pub unserialize_attributes : ℕ → Condition → Attributes → List ℕ → Outcome
unserialize_attributes attr c a s =
    if attr == 22
    then stored_at s a.skills a.current_skill (λ xs. record c {
      extra = attributes (record a { skills = xs; current_skill = a.current_skill + 1 });
    })
    else if attr == 30
    then stored_at s a.special_skills a.current_special_skill (λ xs. record c {
      extra =
          attributes
            (record a { special_skills = xs; current_special_skill = a.current_special_skill + 1 });
    })
    else if attr == 23
    then stored_at s a.stats a.current_stat (λ xs. record c {
      extra = attributes (record a { stats = xs; current_stat = a.current_stat + 1 });
    })
    else if attr == 29
    then stored 1 s
        (λ v. record c { extra = attributes (record a { disable_defense = not (v == 0) }) })
    else unserialize_base attr c s

-- `ConditionRegeneration::unserializeProp`
unfoldable pub unserialize_regeneration : ℕ → Condition → Regeneration → List ℕ → Outcome
unserialize_regeneration attr c r s =
    if attr == 4
    then stored 4 s (λ v. record c { extra = regeneration (record r { health_ticks = v }) })
    else if attr == 5
    then stored 4 s (λ v. record c { extra = regeneration (record r { health_gain = v }) })
    else if attr == 6
    then stored 4 s (λ v. record c { extra = regeneration (record r { mana_ticks = v }) })
    else if attr == 7
    then stored 4 s (λ v. record c { extra = regeneration (record r { mana_gain = v }) })
    else unserialize_base attr c s

-- `ConditionSoul::unserializeProp`
unfoldable pub unserialize_soul : ℕ → Condition → Soul → List ℕ → Outcome
unserialize_soul attr c m s =
    if attr == 21
    then stored 4 s (λ v. record c { extra = soul (record m { soul_gain = v }) })
    else if attr == 20
    then stored 4 s (λ v. record c { extra = soul (record m { soul_ticks = v }) })
    else unserialize_base attr c s

-- `propStream.read<IntervalInfo>`: three values of four bytes, read as one of twelve.
unfoldable pub interval_info : ℕ → IntervalInfo
interval_info v = record { time_left = u32 v; value = u32 (v / 2 ^ 32); interval = v / 2 ^ 64 }

-- A round of damage that was read.
unfoldable pub push_interval : ℕ → Condition → Damage → IntervalInfo → Condition
push_interval now c d info =
    let longer = record c {
      extra = damage (record d { damage_list = d.damage_list ++ info ∷ [] });
    } in
    if c.ticks == forever then longer else set_ticks now (add32 c.ticks info.interval) longer

-- `ConditionDamage::unserializeProp`
unfoldable pub unserialize_damage : ℕ → ℕ → Condition → Damage → List ℕ → Outcome
unserialize_damage now attr c d s =
    if attr == 8
    then stored 1 s (λ v. record c { extra = damage (record d { delayed = not (v == 0) }) })
    else if attr == 25
    then stored 4 s (λ v. record c { extra = damage (record d { period_damage = v }) })
    else if attr == 9
    then elim (skip 4 s) [ none ↦ refused s | some rest ↦ done c rest ]
    else if attr == 10
    then stored 12 s (λ v. push_interval now c d (interval_info v))
    else unserialize_base attr c s

-- `ConditionSpeed::unserializeProp`
unfoldable pub unserialize_speed : ℕ → Condition → Speed → List ℕ → Outcome
unserialize_speed attr c p s =
    if attr == 11
    then stored 4 s (λ v. record c { extra = speed (record p { speed_delta = v }) })
    else if attr == 12
    then stored 4 s (λ v. record c { extra = speed (record p { mina = v }) })
    else if attr == 13
    then stored 4 s (λ v. record c { extra = speed (record p { minb = v }) })
    else if attr == 14
    then stored 4 s (λ v. record c { extra = speed (record p { maxa = v }) })
    else if attr == 15
    then stored 4 s (λ v. record c { extra = speed (record p { maxb = v }) })
    else unserialize_base attr c s

-- The bytes of an `Outfit_t` and back, as one number of eighteen bytes.
unfoldable pub outfit_value : Outfit → ℕ
outfit_value o =
    o.look_type
    + 2 ^ 16 * o.look_type_ex
    + 2 ^ 32 * o.look_mount
    + 2 ^ 48 * o.look_wings
    + 2 ^ 64 * o.look_aura
    + 2 ^ 80 * o.look_shader
    + 2 ^ 96 * o.look_head
    + 2 ^ 104 * o.look_body
    + 2 ^ 112 * o.look_legs
    + 2 ^ 120 * o.look_feet
    + 2 ^ 128 * o.look_addons
    + 2 ^ 136 * o.padding

unfoldable pub outfit_of : ℕ → Outfit
outfit_of v = record {
  look_type = v % 2 ^ 16;
  look_type_ex = v / 2 ^ 16 % 2 ^ 16;
  look_mount = v / 2 ^ 32 % 2 ^ 16;
  look_wings = v / 2 ^ 48 % 2 ^ 16;
  look_aura = v / 2 ^ 64 % 2 ^ 16;
  look_shader = v / 2 ^ 80 % 2 ^ 16;
  look_head = v / 2 ^ 96 % 2 ^ 8;
  look_body = v / 2 ^ 104 % 2 ^ 8;
  look_legs = v / 2 ^ 112 % 2 ^ 8;
  look_feet = v / 2 ^ 120 % 2 ^ 8;
  look_addons = v / 2 ^ 128 % 2 ^ 8;
  padding = v / 2 ^ 136;
}

-- `ConditionOutfit::unserializeProp`
unfoldable pub unserialize_outfit : ℕ → Condition → List ℕ → Outcome
unserialize_outfit attr c s =
    if attr == 24
    then stored 18 s (λ v. record c { extra = outfit (outfit_of v) })
    else unserialize_base attr c s

-- `ConditionLight::unserializeProp`
unfoldable pub unserialize_light : ℕ → Condition → Light → List ℕ → Outcome
unserialize_light attr c l s =
    if attr == 16
    then stored 4 s (λ v. record c { extra = light (record l { color = u8 v }) })
    else if attr == 17
    then stored 4 s (λ v. record c { extra = light (record l { level = u8 v }) })
    else if attr == 18
    then stored 4 s (λ v. record c { extra = light (record l { internal_light_ticks = v }) })
    else if attr == 19
    then stored 4 s (λ v. record c { extra = light (record l { light_change_interval = v }) })
    else unserialize_base attr c s

-- `unserializeProp` of the condition's class.
abbrev pub dispatch : ℕ → ℕ → Condition → Extra → List ℕ → Outcome
dispatch now attr c generic s = unserialize_base attr c s
dispatch now attr c invisible s = unserialize_base attr c s
dispatch now attr c spell_cooldown s = unserialize_base attr c s
dispatch now attr c spell_group_cooldown s = unserialize_base attr c s
dispatch now attr c (attributes a) s = unserialize_attributes attr c a s
dispatch now attr c (regeneration r) s = unserialize_regeneration attr c r s
dispatch now attr c (soul m) s = unserialize_soul attr c m s
dispatch now attr c (damage d) s = unserialize_damage now attr c d s
dispatch now attr c (speed p) s = unserialize_speed attr c p s
dispatch now attr c (outfit o) s = unserialize_outfit attr c s
dispatch now attr c (light l) s = unserialize_light attr c l s
dispatch now attr c (drunk n) s = unserialize_base attr c s

-- The loop of `Condition::unserialize`.
unfoldable pub unserialize_from : ℕ → ℕ → Condition → List ℕ → Outcome
unserialize_from zero now c s = stuck
unserialize_from (suc f) now c s = elim (read 1 s) [
  | none ↦ done c s
  | some (attr, rest) ↦ elim (attr == 254) [
    | true ↦ done c rest
    | false ↦ elim (dispatch now attr c c.extra rest) [
      | done c' s' ↦ unserialize_from f now c' s'
      | refused s' ↦ refused s'
      | overrun ↦ overrun
      | stuck ↦ stuck
    ]
  ]
]

-- `Condition::unserialize`: each turn takes a byte at least.
unfoldable pub unserialize : ℕ → Condition → List ℕ → Outcome
unserialize now c s = unserialize_from (suc (length s)) now c s
