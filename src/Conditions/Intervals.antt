-- ===== src/Conditions/Intervals.antt =====
-- src/condition.cpp: the rounds of damage that were written, and the ticks that come of them.
use ot_tibia_teste.Common.{
  ℕ, suc, ◌+◌, ◌<◌, ◌≡◌, refl, sym, ap, subst, ◌∙◌, List, [], ◌∷◌, ◌++◌, false, ◌==◌, length, arith,
  All,
}
use mathlib.Core.List.{append_assoc, append-nil}
use ot_tibia_teste.Common.Words.{u64, add32}
use ot_tibia_teste.Streams.Laws.{capacity}
use ot_tibia_teste.Conditions.{
  IntervalInfo, Damage, damage, Condition, new_extra, of_damage, widen, set_ticks, forever,
}
use ot_tibia_teste.Conditions.Storage.{unserialize_damage, push_interval, interval_info}
use ot_tibia_teste.Conditions.Saving.{put, bit, serialize_extra, put_intervals, interval_value}
use ot_tibia_teste.Conditions.Fields.{
  Advances, no_turn, turns_on, one_turn, stored-write, stored-write_as, bit-small, bit-back,
}
use ot_tibia_teste.Conditions.Extras.{IsWord}

abbrev pub IntervalFits : IntervalInfo → Type 0
IntervalFits info = IsWord info.time_left × IsWord info.value × IsWord info.interval

interval_info-value :
    (info : IntervalInfo) → IntervalFits info → interval_info (interval_value info) ≡ info
unfolding interval_info interval_value
interval_info-value info h = ground arith

interval_value-lt : (info : IntervalInfo) → IntervalFits info → interval_value info < capacity 12
unfolding interval_value
interval_value-lt info h = omega arith

-- How long the rounds take together.
unfoldable pub total : List IntervalInfo → ℕ
total [] = 0
total (info ∷ rest) = info.interval + total rest

-- The end of a condition that reads these rounds, by the last of them.
unfoldable pub end_after : ℕ → ℕ → ℕ → List IntervalInfo → ℕ
end_after now t e [] = e
end_after now t e (info ∷ rest) =
    end_after now (t + info.interval) (u64 (widen (t + info.interval) + now)) rest

pub end_after-total :
    (now t e : ℕ) (info : IntervalInfo) (rest : List IntervalInfo)
    → end_after now t e (info ∷ rest) ≡ u64 (widen (t + total (info ∷ rest)) + now)
unfolding end_after total
end_after-total now t e info [] =
    let sum : info.interval + 0 ≡ info.interval = omega arith in rw sum refl
end_after-total now t e info (other ∷ rest) =
    let sum : t + info.interval + (other.interval + total rest)
        ≡ t + (info.interval + (other.interval + total rest)) =
      omega arith in
    end_after-total now (t + info.interval) (u64 (widen (t + info.interval) + now)) other rest
    ∙ ap (λ s. u64 (widen s + now)) sum

module _ (now : ℕ) (c : Condition) where
  abbrev pub hurting : ℕ → ℕ → Damage → Condition
  hurting t e d = record c { ticks = t; end_time = e; extra = damage d }

  push_interval-adds :
      (t e : ℕ) (d : Damage) (info : IntervalInfo)
      → t + info.interval < forever
      → push_interval now (hurting t e d) d info
        ≡ hurting
            (t + info.interval)
            (u64 (widen (t + info.interval) + now))
            (record d { damage_list = d.damage_list ++ info ∷ [] })
  unfolding push_interval set_ticks
  push_interval-adds t e d info h =
      let finite : (t == forever) ≡ false = ground arith in
      let sum : add32 t info.interval ≡ t + info.interval = unfold add32 in omega arith in
      rw (finite, sum) refl

  intervals_turns :
      (rounds : List IntervalInfo) (t e : ℕ) (d d' : Damage) (next : List ℕ)
      → All IntervalFits rounds
      → t + total rounds < forever
      → d' ≡ record d { damage_list = d.damage_list ++ rounds }
      → Advances
          (length rounds)
          now
          (hurting t e d)
          (put_intervals rounds next)
          (hurting (t + total rounds) (end_after now t e rounds) d')
          next
  unfolding put_intervals end_after total unserialize_damage
  intervals_turns [] t e d d' next fits h kept =
      let same : record d { damage_list = d.damage_list ++ [] } ≡ d =
        λ i. record d { damage_list = append-nil d.damage_list i } in
      let sum : t ≡ t + 0 = omega arith in
      subst (λ x. Advances 0 now (hurting t e d) next (hurting (t + 0) e x) next)
        (sym same ∙ sym kept)
        (subst (λ k. Advances 0 now (hurting t e d) next (hurting k e d) next) sum
          (no_turn now (hurting t e d) next))
  intervals_turns (info ∷ rounds) t e d d' next fits h kept =
      let longer = record d { damage_list = d.damage_list ++ info ∷ [] } in
      let t' = t + info.interval in
      let e' = u64 (widen (t + info.interval) + now) in
      let regroup : record d { damage_list = d.damage_list ++ info ∷ rounds }
          ≡ record d { damage_list = (d.damage_list ++ info ∷ []) ++ rounds } =
        λ i. record d { damage_list = sym (append_assoc d.damage_list (info ∷ []) rounds) i } in
      let first =
        one_turn now 10 12 (interval_value info) (hurting t e d) (hurting t' e' longer)
          (put_intervals rounds next) (omega arith)
          (stored-write_as 12 (interval_value info) (put_intervals rounds next)
            (λ v. push_interval now (hurting t e d) d (interval_info v))
            (interval_value-lt info fits.0)
            (ap (push_interval now (hurting t e d) d) (interval_info-value info fits.0)
              ∙ push_interval-adds t e d info (omega arith))) in
      let rest =
        intervals_turns rounds t' e' longer d' next fits.1 (omega arith) (kept ∙ regroup) in
      let sum : t' + total rounds ≡ t + (info.interval + total rounds) = omega arith in
      let count : 1 + length rounds ≡ suc (length rounds) = omega arith in
      subst
        (λ n.
          Advances n now (hurting t e d)
            (put 10 12 (interval_value info) (put_intervals rounds next))
            (hurting (t + (info.interval + total rounds)) (end_after now t' e' rounds) d') next)
        count
        (subst
          (λ k.
            Advances (1 + length rounds) now (hurting t e d)
              (put 10 12 (interval_value info) (put_intervals rounds next))
              (hurting k (end_after now t' e' rounds) d') next)
          sum (turns_on 1 (length rounds) now first rest))

-- Everything that is written fits its bytes, and the rounds end.
pub record DamageFits (d : Damage) : Type 0 where
  pub period_fits : IsWord d.period_damage
  pub rounds_fit : All IntervalFits d.damage_list
  pub rounds_end : total d.damage_list < forever

-- What comes back: whether it is delayed, the damage of a period and the rounds.
abbrev pub read_damage : Damage → Damage
read_damage d = record {
  max_damage = 0;
  min_damage = 0;
  start_damage = 0;
  period_damage = d.period_damage;
  period_damage_tick = 0;
  tick_interval = 2000;
  init_damage = 0;
  force_update = false;
  delayed = d.delayed;
  is_field = false;
  owner = 0;
  damage_list = d.damage_list;
}

pub damage_turns :
    (now : ℕ) (c : Condition) (next : List ℕ) (d : Damage)
    → DamageFits d
    → Advances
        (2 + length d.damage_list)
        now
        (record c { ticks = 0; end_time = 0; extra = new_extra of_damage 0 })
        (serialize_extra (damage d) next)
        (record c {
          ticks = total d.damage_list;
          end_time = end_after now 0 0 d.damage_list;
          extra = damage (read_damage d);
        })
        next
unfolding unserialize_damage
damage_turns now c next d h =
    let none_read = record (read_damage d) {
      delayed = false;
      period_damage = 0;
      damage_list = [];
    } in
    let delay_read = record none_read { delayed = d.delayed } in
    let period_read = record delay_read { period_damage = d.period_damage } in
    let sum : 0 + total d.damage_list ≡ total d.damage_list = omega arith in
    let count : 1 + (1 + length d.damage_list) ≡ 2 + length d.damage_list = omega arith in
    subst
      (λ n.
        Advances n now (hurting now c 0 0 none_read) (serialize_extra (damage d) next)
          (hurting now c (total d.damage_list) (end_after now 0 0 d.damage_list) (read_damage d))
          next)
      count
      (turns_on 1 _ now
        (one_turn now 8 1 (bit d.delayed) _ _ _ (omega arith) (
          stored-write_as 1 (bit d.delayed) _ _ (omega (arith, bit-small d.delayed))
            (λ i. hurting now c 0 0 (record none_read { delayed = bit-back d.delayed i }))))
        (turns_on 1 _ now
          (one_turn now 25 4 d.period_damage _ _ _ (omega arith)
            (stored-write 4 d.period_damage _ _ h.period_fits))
          (subst
            (λ k.
              Advances (length d.damage_list) now (hurting now c 0 0 period_read)
                (put_intervals d.damage_list next)
                (hurting now c k (end_after now 0 0 d.damage_list) (read_damage d)) next)
            sum
            (intervals_turns now c d.damage_list 0 0 period_read (read_damage d) next h.rounds_fit
              (omega (arith, h.rounds_end)) refl))))
