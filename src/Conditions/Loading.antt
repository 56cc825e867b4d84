-- ===== src/Conditions/Loading.antt =====
-- src/condition.cpp: a condition that is saved is created and read again.
use ot_tibia_teste.Common.{
  ℕ, suc, ◌+◌, ◌-◌, ◌<◌, ◌≤◌, ◌≡◌, refl, ◌∙◌, List, [], ◌∷◌, ◌++◌, Bool, false, ◌==◌, some, length,
  arith, length-append,
}
use ot_tibia_teste.Common.Words.{u8}
use ot_tibia_teste.Streams.{write}
use ot_tibia_teste.Streams.Laws.{read-write, length-write}
use ot_tibia_teste.Conditions.{
  IntervalInfo, Extra, Class, generic, invisible, spell_cooldown, spell_group_cooldown, attributes,
  regeneration, soul, damage, speed, outfit, light, drunk, Condition, class_of, class_for,
  construct, create_condition, forever,
}
use ot_tibia_teste.Conditions.Storage.{done, unserialize, unserialize_from}
use ot_tibia_teste.Conditions.Saving.{
  put, put_each, put_intervals, bit, widen_id, serialize_base, serialize_extra, create_from,
  interval_value,
}
use ot_tibia_teste.Conditions.Fields.{Advances, no_turn, bit-small, bit-back}
use ot_tibia_teste.Conditions.Extras.{
  regeneration_turns, soul_turns, speed_turns, light_turns, outfit_turns, IsWord,
}
use ot_tibia_teste.Conditions.Arrays.{attribute_turns, attributes_turns}
use ot_tibia_teste.Conditions.Intervals.{damage_turns}
use ot_tibia_teste.Conditions.RoundTrip.{
  ExtraFits, IsSound, read_extra, read_ticks, read_end, read_back, create_from-put,
}

-- How many attributes the class writes.
abbrev pub turn_count : Extra → ℕ
turn_count generic = 0
turn_count invisible = 0
turn_count spell_cooldown = 0
turn_count spell_group_cooldown = 0
turn_count (attributes a) = attribute_turns a
turn_count (regeneration r) = 4
turn_count (soul m) = 2
turn_count (damage d) = 2 + length d.damage_list
turn_count (speed p) = 5
turn_count (outfit o) = 1
turn_count (light l) = 4
turn_count (drunk n) = 0

abbrev pub made : Condition → Extra → Condition
made c x = construct c.id c.condition_type c.ticks 0 c.is_buff c.sub_id c.aggressive (class_of x)

extra_turns :
    (now : ℕ) (c : Condition) (x : Extra) (next : List ℕ)
    → ExtraFits x
    → (c.ticks == forever) ≡ false
    → Advances
        (turn_count x)
        now
        (made c x)
        (serialize_extra x next)
        (record c { ticks = read_ticks x c.ticks; end_time = read_end now x; extra = read_extra x })
        next
unfolding construct
extra_turns now c generic next fits finite = rw finite (no_turn now _ next)
extra_turns now c invisible next fits finite = rw finite (no_turn now _ next)
extra_turns now c spell_cooldown next fits finite = rw finite (no_turn now _ next)
extra_turns now c spell_group_cooldown next fits finite = rw finite (no_turn now _ next)
extra_turns now c (drunk n) next fits finite = rw finite (no_turn now _ next)
extra_turns now c (attributes a) next fits finite =
    rw finite (attributes_turns now (record c { end_time = 0 }) next a fits)
extra_turns now c (regeneration r) next fits finite =
    rw finite
      (regeneration_turns now (record c { end_time = 0 }) next r fits.0 fits.1 fits.2 fits.3)
extra_turns now c (soul m) next fits finite =
    rw finite (soul_turns now (record c { end_time = 0 }) next m fits.0 fits.1)
extra_turns now c (damage d) next fits finite = damage_turns now c next d fits
extra_turns now c (speed p) next fits finite =
    rw finite
      (speed_turns now (record c { end_time = 0 }) next p fits.0 fits.1 fits.2 fits.3 fits.4)
extra_turns now c (outfit o) next fits finite =
    rw finite (outfit_turns now (record c { end_time = 0 }) next o fits)
extra_turns now c (light l) next fits finite =
    rw finite (light_turns now (record c { end_time = 0 }) next l fits.0 fits.1 fits.2 fits.3)

pub length-put : (attr n v : ℕ) (next : List ℕ) → length (put attr n v next) ≡ 1 + n + length next
unfolding put
length-put attr n v next = omega (
  arith,
  length-append (write 1 attr) (write n v ++ next),
  length-append (write n v) next,
  length-write 1 attr,
  length-write n v,
)

length-put_each :
    (attr : ℕ) (xs next : List ℕ) → length xs + length next ≤ length (put_each attr xs next)
unfolding put_each
length-put_each attr [] next = omega arith
length-put_each attr (x ∷ xs) next =
    omega (arith, length-put_each attr xs next, length-put attr 4 x (put_each attr xs next))

length-put_intervals :
    (xs : List IntervalInfo) (next : List ℕ)
    → length xs + length next ≤ length (put_intervals xs next)
unfolding put_intervals
length-put_intervals [] next = omega arith
length-put_intervals (x ∷ xs) next = omega (
  arith,
  length-put_intervals xs next,
  length-put 10 12 (interval_value x) (put_intervals xs next),
)

pub turns_fit :
    (x : Extra) (next : List ℕ) → turn_count x + length next ≤ length (serialize_extra x next)
turns_fit generic next = omega arith
turns_fit invisible next = omega arith
turns_fit spell_cooldown next = omega arith
turns_fit spell_group_cooldown next = omega arith
turns_fit (drunk n) next = omega arith
turns_fit (attributes a) next = omega (
  arith,
  length-put_each 22 a.skills
      (put_each 23 a.stats (put 29 1 (bit a.disable_defense) (put_each 30 a.special_skills next))),
  length-put_each 23 a.stats (put 29 1 (bit a.disable_defense) (put_each 30 a.special_skills next)),
  length-put 29 1 (bit a.disable_defense) (put_each 30 a.special_skills next),
  length-put_each 30 a.special_skills next,
)
turns_fit (regeneration r) next = omega (arith, length-put)
turns_fit (soul m) next = omega (arith, length-put)
turns_fit (damage d) next = omega (
  arith,
  length-put 8 1 (bit d.delayed) (put 25 4 d.period_damage (put_intervals d.damage_list next)),
  length-put 25 4 d.period_damage (put_intervals d.damage_list next),
  length-put_intervals d.damage_list next,
)
turns_fit (speed p) next = omega (arith, length-put)
turns_fit (outfit o) next = omega (arith, length-put)
turns_fit (light l) next = omega (arith, length-put)

widen_id-back : (id : ℕ) → id < 256 → u8 (widen_id id) ≡ id
unfolding widen_id
widen_id-back id h = ground arith

widen_id-IsWord : (id : ℕ) → id < 256 → IsWord (widen_id id)
unfolding widen_id
widen_id-IsWord id h = ground arith

-- The end of a condition's attributes.
end_reached :
    (f now : ℕ) (c : Condition) (rest : List ℕ)
    → unserialize_from (suc f) now c (write 1 254 ++ rest) ≡ done c rest
unfolding unserialize_from
end_reached f now c rest = rw (read-write 1 254 rest (omega arith), unserialize_from) refl

create_condition-class :
    (id type ticks param : ℕ) (buff : Bool) (sub : ℕ) (aggressive : Bool) {class : Class}
    → class_for type ≡ some class
    → create_condition id type ticks param buff sub aggressive
      ≡ some (construct id type ticks param buff sub aggressive class)
unfolding create_condition
create_condition-class id type ticks param buff sub aggressive e = rw (e, create_condition) refl

module _ (now : ℕ) (c : Condition) (h : IsSound c) (finite : (c.ticks == forever) ≡ false) where
  pub create_from-serialize :
      (next : List ℕ) → create_from (serialize_base c next) ≡ some (made c c.extra, next)
  unfolding serialize_base
  create_from-serialize next =
      create_from-put c.condition_type (widen_id c.id) c.ticks (bit c.is_buff) c.sub_id
        (bit c.aggressive) next h.type_fits (widen_id-IsWord c.id h.id_fits) h.ticks_fit
        (omega (arith, bit-small c.is_buff)) h.sub_id_fits (omega (arith, bit-small c.aggressive))
      ∙ rw
          (
            widen_id-back c.id h.id_fits,
            bit-back c.is_buff,
            bit-back c.aggressive,
            create_condition-class c.id c.condition_type c.ticks 0 c.is_buff c.sub_id c.aggressive
                h.made,
          )
          refl

  pub unserialize-serialize :
      (rest : List ℕ)
      → unserialize now (made c c.extra) (serialize_extra c.extra (write 1 254 ++ rest))
        ≡ done (read_back now c) rest
  unfolding unserialize
  unserialize-serialize rest =
      let s = serialize_extra c.extra (write 1 254 ++ rest) in
      let spare = length s - turn_count c.extra in
      let fuel : suc (length s) ≡ turn_count c.extra + suc spare =
        omega (arith, turns_fit c.extra (write 1 254 ++ rest)) in
      rw fuel (
        (extra_turns now c c.extra (write 1 254 ++ rest) h.extra_fits finite).reached (suc spare)
        ∙ end_reached spare now (read_back now c) rest)
