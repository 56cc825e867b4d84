-- ===== src/Conditions/Examples.antt =====
-- Conditions that are saved and loaded.
use ot_tibia_teste.Common.{ℕ, ◌≡◌, ◌≢◌, refl, List, [], ◌∷◌, true, false, arith}
use ot_tibia_teste.Conditions.{Condition, speed, damage, drunk, class_for, is_persistent}
use ot_tibia_teste.Conditions.Saving.{save_conditions, load_conditions, kept, unfinished}
use ot_tibia_teste.Conditions.Intervals.{total, end_after}
use ot_tibia_teste.Conditions.RoundTrip.{IsSound}
use ot_tibia_teste.Conditions.Kept.{load_conditions-save_conditions, loaded}
use ot_tibia_teste.Conditions.Ends.{load_conditions-ends}

abbrev haste : Condition
haste = record {
  id = 0;
  condition_type = 16;
  ticks = 33000;
  is_buff = false;
  sub_id = 0;
  aggressive = false;
  end_time = 0;
  extra = speed (record { speed_delta = 220; mina = 0; minb = 0; maxa = 0; maxb = 0 });
}

abbrev very_drunk : Condition
very_drunk = record {
  id = 255;
  condition_type = 2048;
  ticks = 60000;
  is_buff = false;
  sub_id = 0;
  aggressive = false;
  end_time = 0;
  extra = drunk 80;
}

abbrev burning : Condition
burning = record {
  id = 0;
  condition_type = 2;
  ticks = 11000;
  is_buff = false;
  sub_id = 0;
  aggressive = true;
  end_time = 0;
  extra = damage (record {
    max_damage = 0;
    min_damage = 0;
    start_damage = 0;
    period_damage = 0;
    period_damage_tick = 0;
    tick_interval = 9000;
    init_damage = 0;
    force_update = false;
    delayed = true;
    is_field = false;
    owner = 7;
    damage_list =
        record { time_left = 2000; value = 4294967286; interval = 9000 }
        ∷ record { time_left = 9000; value = 4294967286; interval = 9000 }
        ∷ [];
  });
}

abbrev ring_of_haste : Condition
ring_of_haste = record haste { ticks = 4294967295; id = 9 }

abbrev afflictions : List Condition
afflictions = haste ∷ ring_of_haste ∷ very_drunk ∷ burning ∷ []

haste-IsSound : IsSound haste
unfolding class_for
haste-IsSound = record {
  made = refl;
  type_fits = omega arith;
  id_fits = omega arith;
  ticks_fit = omega arith;
  sub_id_fits = omega arith;
  extra_fits = omega arith;
}

ring_of_haste-IsSound : IsSound ring_of_haste
unfolding class_for
ring_of_haste-IsSound = record {
  made = refl;
  type_fits = omega arith;
  id_fits = omega arith;
  ticks_fit = omega arith;
  sub_id_fits = omega arith;
  extra_fits = omega arith;
}

very_drunk-IsSound : IsSound very_drunk
unfolding class_for
very_drunk-IsSound = record {
  made = refl;
  type_fits = omega arith;
  id_fits = omega arith;
  ticks_fit = omega arith;
  sub_id_fits = omega arith;
  extra_fits = tt;
}

burning-IsSound : IsSound burning
unfolding class_for total
burning-IsSound = record {
  made = refl;
  type_fits = omega arith;
  id_fits = omega arith;
  ticks_fit = omega arith;
  sub_id_fits = omega arith;
  extra_fits = record {
    period_fits = omega arith;
    rounds_fit = omega arith;
    rounds_end = omega arith;
  };
}

load_conditions-save_conditions_example :
    load_conditions 5000 (save_conditions afflictions) ≡ kept (loaded 5000 afflictions [])
load_conditions-save_conditions_example =
    load_conditions-save_conditions 5000 afflictions
      (haste-IsSound, (ring_of_haste-IsSound, (very_drunk-IsSound, (burning-IsSound, tt))))

-- The ring's condition is not kept, the fire burns for the whole of its rounds, and the other player
-- is less drunk than before.
abbrev ticks_of : List Condition → List ℕ
ticks_of [] = []
ticks_of (c ∷ cs) = c.ticks ∷ ticks_of cs

afflictions_ticks : ticks_of (loaded 5000 afflictions []) ≡ 18000 ∷ 60000 ∷ 33000 ∷ []
unfolding loaded is_persistent total end_after
afflictions_ticks = refl

-- A stream that is cut.
load_conditions-ends_example : load_conditions 5000 (1 ∷ 2 ∷ 0 ∷ 0 ∷ 0 ∷ 2 ∷ 255 ∷ []) ≢ unfinished
load_conditions-ends_example = load_conditions-ends 5000 (1 ∷ 2 ∷ 0 ∷ 0 ∷ 0 ∷ 2 ∷ 255 ∷ [])
