-- ===== src/Conditions/RoundTrip.antt =====
-- src/condition.cpp, src/iologindata.cpp: the conditions of a player that are saved and loaded.
use ot_tibia_teste.Common.{ℕ, ◌<◌, ◌≡◌, refl, List, ◌++◌, true, not, ◌==◌, some, arith}
use ot_tibia_teste.Common.Words.{u8}
use ot_tibia_teste.Streams.{write}
use ot_tibia_teste.Streams.Laws.{capacity, read-write}
use ot_tibia_teste.Conditions.{
  Extra, generic, invisible, spell_cooldown, spell_group_cooldown, attributes, regeneration, soul,
  damage, speed, outfit, light, drunk, Condition, class_of, class_for, create_condition,
}
use ot_tibia_teste.Conditions.Saving.{put, expect, create_from, ◌>>=◌}
use ot_tibia_teste.Conditions.Extras.{IsWord, OutfitFits}
use ot_tibia_teste.Conditions.Arrays.{AttributesFit, read_attributes}
use ot_tibia_teste.Conditions.Intervals.{DamageFits, read_damage, total, end_after}

-- Every value that the class writes fits the bytes that it has.
abbrev pub ExtraFits : Extra → Type 0
ExtraFits generic = Unit
ExtraFits invisible = Unit
ExtraFits spell_cooldown = Unit
ExtraFits spell_group_cooldown = Unit
ExtraFits (attributes a) = AttributesFit a
ExtraFits (regeneration r) =
    IsWord r.health_ticks × IsWord r.health_gain × IsWord r.mana_ticks × IsWord r.mana_gain
ExtraFits (soul m) = IsWord m.soul_gain × IsWord m.soul_ticks
ExtraFits (damage d) = DamageFits d
ExtraFits (speed p) =
    IsWord p.speed_delta × IsWord p.mina × IsWord p.minb × IsWord p.maxa × IsWord p.maxb
ExtraFits (outfit o) = OutfitFits o
ExtraFits (light l) =
    (l.color < 256)
    × (l.level < 256)
    × IsWord l.internal_light_ticks
    × IsWord l.light_change_interval
ExtraFits (drunk n) = Unit

-- The condition is of the class that its type wants, and its values fit their bytes.
pub record IsSound (c : Condition) : Type 0 where
  pub made : class_for c.condition_type ≡ some (class_of c.extra)
  pub type_fits : IsWord c.condition_type
  pub id_fits : c.id < 256
  pub ticks_fit : IsWord c.ticks
  pub sub_id_fits : IsWord c.sub_id
  pub extra_fits : ExtraFits c.extra

-- What the classes make of what they wrote: how long a regeneration or a gain of soul has run and the
-- percentages of attributes start anew, a drunk player is as drunk as the default, and a damage keeps its rounds.
abbrev pub read_extra : Extra → Extra
read_extra generic = generic
read_extra invisible = invisible
read_extra spell_cooldown = spell_cooldown
read_extra spell_group_cooldown = spell_group_cooldown
read_extra (attributes a) = attributes (read_attributes a)
read_extra (regeneration r) =
    regeneration (record r { internal_health_ticks = 0; internal_mana_ticks = 0 })
read_extra (soul m) = soul (record m { internal_soul_ticks = 0 })
read_extra (damage d) = damage (read_damage d)
read_extra (speed p) = speed p
read_extra (outfit o) = outfit o
read_extra (light l) = light l
read_extra (drunk n) = drunk 25

-- The ticks of a damage are those of its rounds, whatever they were.
abbrev pub read_ticks : Extra → ℕ → ℕ
read_ticks (damage d) t = total d.damage_list
read_ticks generic t = t
read_ticks invisible t = t
read_ticks spell_cooldown t = t
read_ticks spell_group_cooldown t = t
read_ticks (attributes a) t = t
read_ticks (regeneration r) t = t
read_ticks (soul m) t = t
read_ticks (speed p) t = t
read_ticks (outfit o) t = t
read_ticks (light l) t = t
read_ticks (drunk n) t = t

abbrev pub read_end : ℕ → Extra → ℕ
read_end now (damage d) = end_after now 0 0 d.damage_list
read_end now generic = 0
read_end now invisible = 0
read_end now spell_cooldown = 0
read_end now spell_group_cooldown = 0
read_end now (attributes a) = 0
read_end now (regeneration r) = 0
read_end now (soul m) = 0
read_end now (speed p) = 0
read_end now (outfit o) = 0
read_end now (light l) = 0
read_end now (drunk n) = 0

-- The condition after it was saved and loaded.
abbrev pub read_back : ℕ → Condition → Condition
read_back now c = record c {
  ticks = read_ticks c.extra c.ticks;
  end_time = read_end now c.extra;
  extra = read_extra c.extra;
}

-- The header.
expect-put :
    (attr n v : ℕ) (next : List ℕ)
    → attr < 256
    → v < capacity n
    → expect attr n (put attr n v next) ≡ some (v, next)
unfolding expect put
expect-put attr n v next h k =
    let found : (attr == attr) ≡ true = ground arith in
    rw (read-write 1 attr (write n v ++ next) h, expect, found, read-write n v next k) refl

pub create_from-put :
    (type id ticks buff sub aggressive : ℕ) (next : List ℕ)
    → IsWord type
    → IsWord id
    → IsWord ticks
    → buff < 256
    → IsWord sub
    → aggressive < 256
    → create_from (
        put 1 4 type
          (put 2 4 id (put 3 4 ticks (put 26 1 buff (put 27 4 sub (put 28 1 aggressive next))))))
      ≡ (create_condition (u8 id) type ticks 0 (not (buff == 0)) sub (not (aggressive == 0))
          >>= λ c. some (c, next))
unfolding create_from
create_from-put type id ticks buff sub aggressive next h1 h2 h3 h4 h5 h6 =
    rw
      (
        expect-put 1 4 type
            (put 2 4 id (put 3 4 ticks (put 26 1 buff (put 27 4 sub (put 28 1 aggressive next)))))
            (omega arith) h1,
        ◌>>=◌,
        expect-put 2 4 id (put 3 4 ticks (put 26 1 buff (put 27 4 sub (put 28 1 aggressive next))))
            (omega arith) h2,
        ◌>>=◌,
        expect-put 3 4 ticks (put 26 1 buff (put 27 4 sub (put 28 1 aggressive next))) (omega arith)
            h3,
        ◌>>=◌,
        expect-put 26 1 buff (put 27 4 sub (put 28 1 aggressive next)) (omega arith) h4,
        ◌>>=◌,
        expect-put 27 4 sub (put 28 1 aggressive next) (omega arith) h5,
        ◌>>=◌,
        expect-put 28 1 aggressive next (omega arith) h6,
      )
      refl
