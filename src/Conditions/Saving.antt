-- ===== src/Conditions/Saving.antt =====
-- src/condition.cpp: `serialize` and `createCondition` of a stream; src/iologindata.cpp: how the
-- conditions of a player are written and read.
use ot_tibia_teste.Common.{
  ℕ, zero, suc, ◌+◌, ◌-◌, ◌*◌, ◌^◌, List, [], ◌∷◌, ◌++◌, Bool, true, false, not, ltb, ◌==◌,
  if◌then◌else◌, Option, none, some, length,
}
use ot_tibia_teste.Common.Words.{u8}
use ot_tibia_teste.Streams.{read, write}
use ot_tibia_teste.Conditions.{
  IntervalInfo, Extra, generic, invisible, spell_cooldown, spell_group_cooldown, attributes,
  regeneration, soul, damage, speed, outfit, light, drunk, Condition, create_condition,
  is_persistent,
}
use ot_tibia_teste.Conditions.Storage.{outfit_value, done, refused, overrun, stuck, unserialize}

-- A code and a value of `n` bytes, in front of what is written after them.
unfoldable pub put : ℕ → ℕ → ℕ → List ℕ → List ℕ
put attr n v next = write 1 attr ++ (write n v ++ next)

abbrev pub bit : Bool → ℕ
bit true = 1
bit false = 0

-- An `int8_t` as an `int32_t`.
unfoldable pub widen_id : ℕ → ℕ
widen_id id = if ltb id 128 then id else id + (2 ^ 32 - 2 ^ 8)

-- `Condition::serialize`
unfoldable pub serialize_base : Condition → List ℕ → List ℕ
serialize_base c next = put 1 4 c.condition_type (
    put 2 4 (widen_id c.id) (
      put 3 4 c.ticks
        (put 26 1 (bit c.is_buff) (put 27 4 c.sub_id (put 28 1 (bit c.aggressive) next)))))

-- A loop that writes each element of an array with a code.
unfoldable pub put_each : ℕ → List ℕ → List ℕ → List ℕ
put_each attr [] next = next
put_each attr (x ∷ xs) next = put attr 4 x (put_each attr xs next)

-- `propWriteStream.write<IntervalInfo>`
unfoldable pub interval_value : IntervalInfo → ℕ
interval_value i = i.time_left + 2 ^ 32 * i.value + 2 ^ 64 * i.interval

-- The loop over the rounds of damage.
unfoldable pub put_intervals : List IntervalInfo → List ℕ → List ℕ
put_intervals [] next = next
put_intervals (i ∷ is) next = put 10 12 (interval_value i) (put_intervals is next)

-- What `serialize` of a class writes after `Condition::serialize`.
abbrev pub serialize_extra : Extra → List ℕ → List ℕ
serialize_extra generic next = next
serialize_extra invisible next = next
serialize_extra spell_cooldown next = next
serialize_extra spell_group_cooldown next = next
serialize_extra (attributes a) next =
    put_each 22 a.skills
      (put_each 23 a.stats (put 29 1 (bit a.disable_defense) (put_each 30 a.special_skills next)))
serialize_extra (regeneration r) next =
    put 4 4 r.health_ticks (put 5 4 r.health_gain (put 6 4 r.mana_ticks (put 7 4 r.mana_gain next)))
serialize_extra (soul m) next = put 21 4 m.soul_gain (put 20 4 m.soul_ticks next)
serialize_extra (damage d) next =
    put 8 1 (bit d.delayed) (put 25 4 d.period_damage (put_intervals d.damage_list next))
serialize_extra (speed p) next =
    put 11 4 p.speed_delta
      (put 12 4 p.mina (put 13 4 p.minb (put 14 4 p.maxa (put 15 4 p.maxb next))))
serialize_extra (outfit o) next = put 24 18 (outfit_value o) next
serialize_extra (light l) next =
    put 16 4 l.color
      (put 17 4 l.level (put 18 4 l.internal_light_ticks (put 19 4 l.light_change_interval next)))
serialize_extra (drunk n) next = next

-- `serialize` of the condition's class
unfoldable pub serialize : Condition → List ℕ → List ℕ
serialize c next = serialize_base c (serialize_extra c.extra next)

-- The loop of `IOLoginData::savePlayer` over the conditions.
unfoldable pub save_conditions : List Condition → List ℕ
save_conditions [] = []
save_conditions (c ∷ cs) =
    let rest = save_conditions cs in
    if is_persistent c then serialize c (write 1 254 ++ rest) else rest

-- A code that must come next, and its value of `n` bytes.
unfoldable pub expect : ℕ → ℕ → List ℕ → Option (ℕ × List ℕ)
expect attr n s = elim (read 1 s) [
  | none ↦ none
  | some (found, rest) ↦ if found == attr then read n rest else none
]

infixl 5 ◌>>=◌
abbrev pub ◌>>=◌ {ℓ κ} : {A : Type ℓ} {B : Type κ} → Option A → (A → Option B) → Option B
none >>= f = none
some a >>= f = f a

-- `Condition::createCondition` of a stream
unfoldable pub create_from : List ℕ → Option (Condition × List ℕ)
create_from s = do
  (type, s1) ← expect 1 4 s
  (id, s2) ← expect 2 4 s1
  (ticks, s3) ← expect 3 4 s2
  (buff, s4) ← expect 26 1 s3
  (sub_id, s5) ← expect 27 4 s4
  (aggressive, s6) ← expect 28 1 s5
  c ← create_condition (u8 id) type ticks 0 (not (buff == 0)) sub_id (not (aggressive == 0))
  some (c, s6)

-- The list that was loaded; `overran` is a write behind an array, and `unfinished` that the fuel is
-- used up.
pub data Loaded : Type 0 where
  kept : List Condition → Loaded
  overran unfinished : Loaded

-- `IOLoginData::loadPlayer`: each condition goes to the front of the list; one that is refused is left
-- out, and the next is read from where it was refused.
unfoldable pub load_from : ℕ → ℕ → List ℕ → List Condition → Loaded
load_from zero now s stored = unfinished
load_from (suc f) now s stored = elim (create_from s) [
  | none ↦ kept stored
  | some (c, rest) ↦ elim (unserialize now c rest) [
    | done c' s' ↦ load_from f now s' (c' ∷ stored)
    | refused s' ↦ load_from f now s' stored
    | overrun ↦ overran
    | stuck ↦ unfinished
  ]
]

-- Each turn takes a byte at least.
unfoldable pub load_conditions : ℕ → List ℕ → Loaded
load_conditions now s = load_from (suc (length s)) now s []
