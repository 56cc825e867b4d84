-- ===== src/Money/Change.antt =====
-- src/game.cpp: `addMoney` gives what it is asked for.
use ot_tibia_teste.Common.{
  ℕ, zero, suc, ◌+◌, ◌-◌, ◌*◌, ◌/◌, ◌^◌, ◌≤◌, ◌<◌, min, ◌≡◌, refl, List, [], ◌∷◌, ◌++◌, ◌==◌, arith,
  All, Bool-cases, inl, inr, subst, sym, ap, ◌∙◌,
}
use native.Mathlib.Nat.{mul_comm, mul-add, div-lt_iff_lt-mul, div-mul-le_self, lt-div-mul-add}
use ot_tibia_teste.Common.Words.{u32}
use ot_tibia_teste.Money.{Call, add_item, remove_item, give_coins, add_money}

module _ (unit_of : ℕ → ℕ) where
  -- What the calls add to the player's money, and what they take.
  abbrev pub added : List Call → ℕ
  added [] = 0
  added (add_item t n ∷ cs) = unit_of t * n + added cs
  added (remove_item s n ∷ cs) = added cs

  abbrev pub removed : List Call → ℕ
  removed [] = 0
  removed (add_item t n ∷ cs) = removed cs
  removed (remove_item s n ∷ cs) = unit_of s.type_id * n + removed cs

  -- Stacks of 1 to 100 coins are added, and no stack loses more than it has.
  abbrev pub IsCall : Call → Type 0
  IsCall (add_item t n) = (1 ≤ n) × (n ≤ 100)
  IsCall (remove_item s n) = (1 ≤ n) × (n ≤ s.count)

  -- The table of coins: the last is worth 1, and no step down is by more than 2 ^ 32.
  abbrev pub IsCurrency : ℕ → List (ℕ × ℕ) → Type 0
  IsCurrency above [] = above ≡ 1
  IsCurrency above ((worth, t) ∷ rest) =
      (1 ≤ worth) × (above ≤ 2 ^ 32 * worth) × (unit_of t ≡ worth) × IsCurrency worth rest

  pub added-append : (cs ds : List Call) → added (cs ++ ds) ≡ added cs + added ds
  added-append [] ds = omega arith
  added-append (add_item t n ∷ cs) ds = omega (arith, added-append cs ds)
  added-append (remove_item s n ∷ cs) ds = added-append cs ds

  pub removed-append : (cs ds : List Call) → removed (cs ++ ds) ≡ removed cs + removed ds
  removed-append [] ds = omega arith
  removed-append (add_item t n ∷ cs) ds = removed-append cs ds
  removed-append (remove_item s n ∷ cs) ds = omega (arith, removed-append cs ds)

  pub append-All : (cs ds : List Call) → All IsCall cs → All IsCall ds → All IsCall (cs ++ ds)
  append-All [] ds h k = k
  append-All (c ∷ cs) ds h k = (h.0, append-All cs ds h.1 k)

  -- Only additions, well formed, of this worth.
  abbrev pub Gives : ℕ → List Call → Type 0
  Gives money cs = (added cs ≡ money) × (removed cs ≡ 0) × All IsCall cs

  give_coins_lem :
      (fuel t coins : ℕ) → coins ≤ fuel → Gives (unit_of t * coins) (give_coins fuel t coins)
  unfolding give_coins
  give_coins_lem zero t coins h =
      let nothing : coins ≡ 0 = omega arith in rw nothing (omega arith, refl, tt)
  give_coins_lem (suc fuel) t coins h = elim (Bool-cases (coins == 0)) [
    | inl e ↦ let nothing : coins ≡ 0 = ground arith in rw nothing (omega arith, refl, tt)
    | inr e ↦
        let some_coins : 1 ≤ coins = ground arith in
        let (worth, none_taken, well) =
          give_coins_lem fuel t (coins - min 100 coins) (omega arith) in
        let whole : min 100 coins + (coins - min 100 coins) ≡ coins = omega arith in
        rw e (
          rw worth (
              sym (mul-add (unit_of t) (min 100 coins) (coins - min 100 coins))
              ∙ ap (λ n. unit_of t * n) whole),
          none_taken,
          ((omega arith, omega arith), well),
        )
  ]

  append-Gives : (a b : ℕ) (cs ds : List Call) → Gives a cs → Gives b ds → Gives (a + b) (cs ++ ds)
  append-Gives a b cs ds (h, r, w) (k, s, v) = (
    rw (added-append cs ds, h, k) refl,
    rw (removed-append cs ds, r, s) refl,
    append-All cs ds w v,
  )

  pub add_money_lem :
      (above : ℕ) (currency : List (ℕ × ℕ)) (money : ℕ)
      → IsCurrency above currency
      → money < above
      → Gives money (add_money currency money)
  unfolding add_money
  add_money_lem above [] money h less = (omega arith, refl, tt)
  add_money_lem above ((worth, t) ∷ rest) money (one, step, same, h) less =
      let q = money / worth in
      let few : q < 2 ^ 32 = (div-lt_iff_lt-mul one).1 (omega arith) in
      let exact : u32 q ≡ q = omega arith in
      let part : q * worth ≤ money = div-mul-le_self money worth in
      let left : money - q * worth < worth =
        let bound : money < money / worth * worth + worth = lt-div-mul-add one in
        omega (arith, bound) in
      elim (Bool-cases (q == 0)) [
        | inl e ↦
            let q_zero : q ≡ 0 = ground arith in
            let low : money < worth = omega (arith, left, ap (λ n. n * worth) q_zero) in
            rw (exact, e) (add_money_lem worth rest money h low)
        | inr e ↦
            let sum : unit_of t * q + (money - q * worth) ≡ money =
              rw (same, mul_comm worth q) (omega arith) in
            rw (exact, e)
              (subst (λ m. Gives m (give_coins q t q ++ add_money rest (money - q * worth))) sum
                (append-Gives (unit_of t * q) (money - q * worth) (give_coins q t q)
                  (add_money rest (money - q * worth)) (give_coins_lem q t q (omega arith))
                  (add_money_lem worth rest (money - q * worth) h left)))
      ]
