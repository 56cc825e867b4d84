-- ===== src/Conditions.antt =====
-- src/condition.h, src/condition.cpp and the conditions of a player in src/iologindata.cpp: what a
-- condition keeps and how it is written and read back. An `int32_t` or a float is its four bytes as an
-- unsigned number, and a `ConditionId_t` its one byte.
pub mod Storage
pub mod Saving
mod Fields
mod Extras
mod Arrays
mod Intervals
mod RoundTrip
mod Loading
mod Kept
mod Ends
mod Examples
use ot_tibia_teste.Common.{
  ℕ, zero, ◌+◌, ◌-◌, ◌^◌, List, [], ◌∷◌, Bool, true, false, contains, ltb, ◌==◌, ◌||◌, ◌/◌,
  if◌then◌else◌, Option, none, some,
}
use ot_tibia_teste.Common.Words.{u8, u64}

-- `ConditionAttributes`
pub record Attributes : Type 0 where
  pub skills : List ℕ
  pub skills_percent : List ℕ
  pub special_skills : List ℕ
  pub stats : List ℕ
  pub stats_percent : List ℕ
  pub current_skill : ℕ
  pub current_special_skill : ℕ
  pub current_stat : ℕ
  pub disable_defense : Bool

-- `ConditionRegeneration`
pub record Regeneration : Type 0 where
  pub internal_health_ticks : ℕ
  pub internal_mana_ticks : ℕ
  pub health_ticks : ℕ
  pub mana_ticks : ℕ
  pub health_gain : ℕ
  pub mana_gain : ℕ

-- `ConditionSoul`
pub record Soul : Type 0 where
  pub internal_soul_ticks : ℕ
  pub soul_ticks : ℕ
  pub soul_gain : ℕ

pub record IntervalInfo : Type 0 where
  pub time_left : ℕ
  pub value : ℕ
  pub interval : ℕ

-- `ConditionDamage`
pub record Damage : Type 0 where
  pub max_damage : ℕ
  pub min_damage : ℕ
  pub start_damage : ℕ
  pub period_damage : ℕ
  pub period_damage_tick : ℕ
  pub tick_interval : ℕ
  pub init_damage : ℕ
  pub force_update : Bool
  pub delayed : Bool
  pub is_field : Bool
  pub owner : ℕ
  pub damage_list : List IntervalInfo

-- `ConditionSpeed`
pub record Speed : Type 0 where
  pub speed_delta : ℕ
  pub mina : ℕ
  pub minb : ℕ
  pub maxa : ℕ
  pub maxb : ℕ

-- `Outfit_t`; its last byte is padding.
pub record Outfit : Type 0 where
  pub look_type : ℕ
  pub look_type_ex : ℕ
  pub look_mount : ℕ
  pub look_wings : ℕ
  pub look_aura : ℕ
  pub look_shader : ℕ
  pub look_head : ℕ
  pub look_body : ℕ
  pub look_legs : ℕ
  pub look_feet : ℕ
  pub look_addons : ℕ
  pub padding : ℕ

-- `ConditionLight`
pub record Light : Type 0 where
  pub level : ℕ
  pub color : ℕ
  pub internal_light_ticks : ℕ
  pub light_change_interval : ℕ

-- The class of a condition.
pub data Class : Type 0 where
  of_generic of_invisible of_spell_cooldown of_spell_group_cooldown of_attributes of_regeneration
        of_soul :
      Class
  of_damage of_speed of_outfit of_light of_drunk : Class

-- What the class adds.
pub data Extra : Type 0 where
  generic invisible spell_cooldown spell_group_cooldown : Extra
  attributes : Attributes → Extra
  regeneration : Regeneration → Extra
  soul : Soul → Extra
  damage : Damage → Extra
  speed : Speed → Extra
  outfit : Outfit → Extra
  light : Light → Extra
  drunk : ℕ → Extra

pub record Condition : Type 0 where
  pub id : ℕ
  pub condition_type : ℕ
  pub ticks : ℕ
  pub is_buff : Bool
  pub sub_id : ℕ
  pub aggressive : Bool
  pub end_time : ℕ
  pub extra : Extra

abbrev pub class_of : Extra → Class
class_of generic = of_generic
class_of invisible = of_invisible
class_of spell_cooldown = of_spell_cooldown
class_of spell_group_cooldown = of_spell_group_cooldown
class_of (attributes a) = of_attributes
class_of (regeneration r) = of_regeneration
class_of (soul s) = of_soul
class_of (damage d) = of_damage
class_of (speed s) = of_speed
class_of (outfit o) = of_outfit
class_of (light l) = of_light
class_of (drunk d) = of_drunk

-- The types of each class, in the `switch` of `createCondition`.
abbrev damaging : List ℕ
damaging = 1 ∷ 2 ∷ 4 ∷ 32768 ∷ 1048576 ∷ 2097152 ∷ 4194304 ∷ 8 ∷ []

abbrev plain : List ℕ
plain = 1024 ∷ 4096 ∷ 8388608 ∷ 16777216 ∷ 65536 ∷ 131072 ∷ 262144 ∷ 33554432 ∷ 512 ∷ []

unfoldable pub class_for : ℕ → Option Class
class_for type =
    if contains type damaging
    then some of_damage
    else if contains type (16 ∷ 32 ∷ [])
    then some of_speed
    else if type == 128
    then some of_invisible
    else if type == 64
    then some of_outfit
    else if type == 256
    then some of_light
    else if type == 8192
    then some of_regeneration
    else if type == 16384
    then some of_soul
    else if type == 524288
    then some of_attributes
    else if type == 67108864
    then some of_spell_cooldown
    else if type == 134217728
    then some of_spell_group_cooldown
    else if type == 2048
    then some of_drunk
    else if contains type plain
    then some of_generic
    else none

abbrev pub zeros6 : List ℕ
zeros6 = 0 ∷ 0 ∷ 0 ∷ 0 ∷ 0 ∷ 0 ∷ []

abbrev pub zeros4 : List ℕ
zeros4 = 0 ∷ 0 ∷ 0 ∷ 0 ∷ []

-- What the constructors of the classes set, with the parameter of `createCondition`.
abbrev pub new_extra : Class → ℕ → Extra
new_extra of_generic param = generic
new_extra of_invisible param = invisible
new_extra of_spell_cooldown param = spell_cooldown
new_extra of_spell_group_cooldown param = spell_group_cooldown
new_extra of_attributes param = attributes (record {
  skills = 0 ∷ zeros6;
  skills_percent = 0 ∷ zeros6;
  special_skills = zeros6;
  stats = zeros4;
  stats_percent = zeros4;
  current_skill = 0;
  current_special_skill = 0;
  current_stat = 0;
  disable_defense = false;
})
new_extra of_regeneration param = regeneration (record {
  internal_health_ticks = 0;
  internal_mana_ticks = 0;
  health_ticks = 1000;
  mana_ticks = 1000;
  health_gain = 0;
  mana_gain = 0;
})
new_extra of_soul param = soul (record { internal_soul_ticks = 0; soul_ticks = 0; soul_gain = 0 })
new_extra of_damage param = damage (record {
  max_damage = 0;
  min_damage = 0;
  start_damage = 0;
  period_damage = 0;
  period_damage_tick = 0;
  tick_interval = 2000;
  init_damage = 0;
  force_update = false;
  delayed = false;
  is_field = false;
  owner = 0;
  damage_list = [];
})
new_extra of_speed param =
    speed (record { speed_delta = param; mina = 0; minb = 0; maxa = 0; maxb = 0 })
new_extra of_outfit param = outfit (record {
  look_type = 0;
  look_type_ex = 0;
  look_mount = 0;
  look_wings = 0;
  look_aura = 0;
  look_shader = 0;
  look_head = 0;
  look_body = 0;
  look_legs = 0;
  look_feet = 0;
  look_addons = 0;
  padding = 0;
})
new_extra of_light param = light (record {
  level = u8 param;
  color = u8 (param / 256);
  internal_light_ticks = 0;
  light_change_interval = 0;
})
new_extra of_drunk param = drunk (if u8 param == 0 then 25 else u8 param)

-- -1, as an `int32_t`.
abbrev pub forever : ℕ
forever = 4294967295

-- An `int32_t` as an `int64_t`.
pub widen : ℕ → ℕ
widen t = if ltb t 2147483648 then t else t + (2 ^ 64 - 2 ^ 32)

-- `Condition::setTicks`, at the time `now`.
unfoldable pub set_ticks : ℕ → ℕ → Condition → Condition
unfolding widen
set_ticks now new_ticks c = record c { ticks = new_ticks; end_time = u64 (widen new_ticks + now) }

-- A damaging condition starts with no ticks.
abbrev pub ticks_for : Class → ℕ → ℕ
ticks_for of_damage ticks = 0
ticks_for of_generic ticks = ticks
ticks_for of_invisible ticks = ticks
ticks_for of_spell_cooldown ticks = ticks
ticks_for of_spell_group_cooldown ticks = ticks
ticks_for of_attributes ticks = ticks
ticks_for of_regeneration ticks = ticks
ticks_for of_soul ticks = ticks
ticks_for of_speed ticks = ticks
ticks_for of_outfit ticks = ticks
ticks_for of_light ticks = ticks
ticks_for of_drunk ticks = ticks

-- The constructor of a class.
unfoldable pub construct : ℕ → ℕ → ℕ → ℕ → Bool → ℕ → Bool → Class → Condition
construct id type ticks param buff sub_id aggressive class = record {
  id = id;
  condition_type = type;
  ticks = ticks_for class ticks;
  is_buff = buff;
  sub_id = sub_id;
  aggressive = aggressive;
  end_time = if ticks_for class ticks == forever then 2 ^ 63 - 1 else 0;
  extra = new_extra class param;
}

-- `Condition::createCondition` by the type
unfoldable pub create_condition : ℕ → ℕ → ℕ → ℕ → Bool → ℕ → Bool → Option Condition
create_condition id type ticks param buff sub_id aggressive = elim (class_for type) [
  | none ↦ none
  | some class ↦ some (construct id type ticks param buff sub_id aggressive class)
]

-- `Condition::isPersistent`: not without end, and of no item, or a mute.
unfoldable pub is_persistent : Condition → Bool
is_persistent c =
    if c.ticks == forever then false else contains c.id (255 ∷ 0 ∷ []) || c.condition_type == 65536
