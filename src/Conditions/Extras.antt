-- ===== src/Conditions/Extras.antt =====
-- src/condition.cpp: what each class writes, and that its `unserializeProp` reads it.
use ot_tibia_teste.Common.{ℕ, ◌^◌, ◌<◌, ◌≡◌, List, arith}
use ot_tibia_teste.Common.Words.{u8}
use ot_tibia_teste.Streams.Laws.{capacity}
use ot_tibia_teste.Conditions.{
  Regeneration, Soul, Speed, Outfit, Light, regeneration, soul, speed, outfit, light, Condition,
  new_extra, of_regeneration, of_soul, of_speed, of_outfit, of_light,
}
use ot_tibia_teste.Conditions.Storage.{
  unserialize_regeneration, unserialize_soul, unserialize_speed, unserialize_light,
  unserialize_outfit, outfit_value, outfit_of,
}
use ot_tibia_teste.Conditions.Saving.{serialize_extra}
use ot_tibia_teste.Conditions.Fields.{Advances, turns_on, one_turn, stored-write, stored-write_as}

-- Fits four bytes.
abbrev pub IsWord : ℕ → Type 0
IsWord v = v < 2 ^ 32

module _ (now : ℕ) (c : Condition) (next : List ℕ) where
  pub regeneration_turns :
      (r : Regeneration)
      → IsWord r.health_ticks
      → IsWord r.health_gain
      → IsWord r.mana_ticks
      → IsWord r.mana_gain
      → Advances 4 now
          (record c { extra = new_extra of_regeneration 0 })
          (serialize_extra (regeneration r) next)
          (record c {
            extra = regeneration (record r { internal_health_ticks = 0; internal_mana_ticks = 0 });
          })
          next
  unfolding unserialize_regeneration
  regeneration_turns r h1 h2 h3 h4 =
      turns_on 1 3 now
        (one_turn now 4 4 r.health_ticks _ _ _ (omega arith) (stored-write 4 r.health_ticks _ _ h1))
        (turns_on 1 2 now
          (one_turn now 5 4 r.health_gain _ _ _ (omega arith) (stored-write 4 r.health_gain _ _ h2))
          (turns_on 1 1 now
            (one_turn now 6 4 r.mana_ticks _ _ _ (omega arith) (stored-write 4 r.mana_ticks _ _ h3))
            (one_turn now 7 4 r.mana_gain _ _ _ (omega arith) (stored-write 4 r.mana_gain _ _ h4))))

  pub soul_turns :
      (m : Soul)
      → IsWord m.soul_gain
      → IsWord m.soul_ticks
      → Advances 2 now
          (record c { extra = new_extra of_soul 0 })
          (serialize_extra (soul m) next)
          (record c { extra = soul (record m { internal_soul_ticks = 0 }) })
          next
  unfolding unserialize_soul
  soul_turns m h1 h2 =
      turns_on 1 1 now
        (one_turn now 21 4 m.soul_gain _ _ _ (omega arith) (stored-write 4 m.soul_gain _ _ h1))
        (one_turn now 20 4 m.soul_ticks _ _ _ (omega arith) (stored-write 4 m.soul_ticks _ _ h2))

  pub speed_turns :
      (p : Speed)
      → IsWord p.speed_delta
      → IsWord p.mina
      → IsWord p.minb
      → IsWord p.maxa
      → IsWord p.maxb
      → Advances 5 now
          (record c { extra = new_extra of_speed 0 })
          (serialize_extra (speed p) next)
          (record c { extra = speed p })
          next
  unfolding unserialize_speed
  speed_turns p h1 h2 h3 h4 h5 =
      turns_on 1 4 now
        (one_turn now 11 4 p.speed_delta _ _ _ (omega arith) (stored-write 4 p.speed_delta _ _ h1))
        (turns_on 1 3 now
          (one_turn now 12 4 p.mina _ _ _ (omega arith) (stored-write 4 p.mina _ _ h2))
          (turns_on 1 2 now
            (one_turn now 13 4 p.minb _ _ _ (omega arith) (stored-write 4 p.minb _ _ h3))
            (turns_on 1 1 now
              (one_turn now 14 4 p.maxa _ _ _ (omega arith) (stored-write 4 p.maxa _ _ h4))
              (one_turn now 15 4 p.maxb _ _ _ (omega arith) (stored-write 4 p.maxb _ _ h5)))))

  pub light_turns :
      (l : Light)
      → l.color < 256
      → l.level < 256
      → IsWord l.internal_light_ticks
      → IsWord l.light_change_interval
      → Advances 4 now
          (record c { extra = new_extra of_light 0 })
          (serialize_extra (light l) next)
          (record c { extra = light l })
          next
  unfolding unserialize_light
  light_turns l h1 h2 h3 h4 =
      let color : u8 l.color ≡ l.color = omega arith in
      let level : u8 l.level ≡ l.level = omega arith in
      turns_on 1 3 now
        (one_turn now 16 4 l.color _ _ _ (omega arith) (stored-write 4 l.color _ _ (omega arith)))
        (turns_on 1 2 now
          (one_turn now 17 4 l.level _ _ _ (omega arith) (
            stored-write_as 4 l.level _ _ (omega arith) (λ i. record c {
              extra = light (record {
                color = color i;
                level = level i;
                internal_light_ticks = 0;
                light_change_interval = 0;
              });
            })))
          (turns_on 1 1 now
            (one_turn now 18 4 l.internal_light_ticks _ _ _ (omega arith)
              (stored-write 4 l.internal_light_ticks _ _ h3))
            (one_turn now 19 4 l.light_change_interval _ _ _ (omega arith)
              (stored-write 4 l.light_change_interval _ _ h4))))

-- Each field fits its bytes.
pub record OutfitFits (o : Outfit) : Type 0 where
  pub type_fits : o.look_type < 65536
  pub type_ex_fits : o.look_type_ex < 65536
  pub mount_fits : o.look_mount < 65536
  pub wings_fits : o.look_wings < 65536
  pub aura_fits : o.look_aura < 65536
  pub shader_fits : o.look_shader < 65536
  pub head_fits : o.look_head < 256
  pub body_fits : o.look_body < 256
  pub legs_fits : o.look_legs < 256
  pub feet_fits : o.look_feet < 256
  pub addons_fits : o.look_addons < 256
  pub padding_fits : o.padding < 256

outfit_of-value : (o : Outfit) → OutfitFits o → outfit_of (outfit_value o) ≡ o
unfolding outfit_of outfit_value
outfit_of-value o h = ground arith

outfit_value-lt : (o : Outfit) → OutfitFits o → outfit_value o < capacity 18
unfolding outfit_value
outfit_value-lt o h = omega arith

pub outfit_turns :
    (now : ℕ) (c : Condition) (next : List ℕ) (o : Outfit)
    → OutfitFits o
    → Advances 1 now
        (record c { extra = new_extra of_outfit 0 })
        (serialize_extra (outfit o) next)
        (record c { extra = outfit o })
        next
unfolding unserialize_outfit
outfit_turns now c next o h = one_turn now 24 18 (outfit_value o) _ _ _ (omega arith) (
    stored-write_as 18 (outfit_value o) _ _ (outfit_value-lt o h)
      (λ i. record c { extra = outfit (outfit_of-value o h i) }))
