-- ===== src/Money/Payment.antt =====
-- src/game.cpp: `removeMoney` takes what it is asked for, to the coin.
use ot_tibia_teste.Common.{
  ℕ, zero, suc, ◌+◌, ◌-◌, ◌*◌, ◌/◌, ◌^◌, ◌≤◌, ◌<◌, ◌≡◌, refl, List, [], ◌∷◌, some, Bool, true,
  false, ltb, ◌==◌, arith, All, Bool-cases, ltb→lt, inl, inr,
}
use native.Mathlib.Nat.{
  add-mul, div-lt_iff_lt-mul, le-div_iff_mul-le, div-mul-le_self, lt-div-mul-add, mul_comm,
  mul-le-mul_left, mul-div_cancel,
}
use ot_tibia_teste.Common.Words.{u32}
use ot_tibia_teste.Money.{
  Stack, Items, MoneyMap, Call, remove_item, add_money, ceiling, split_stack, pay, remove_money,
}
use ot_tibia_teste.Money.Change.{
  added, removed, IsCall, IsCurrency, added-append, removed-append, append-All, add_money_lem,
}
use ot_tibia_teste.Money.Found.{money_among, money_of, IsEntry, IsFair, search_lem}

-- The least number of coins that reaches the sum: less than one more is too much.
ceiling_lem :
    (money unit : ℕ)
    → 1 ≤ unit
    → (money ≤ unit * ceiling money unit) × (unit * ceiling money unit < money + unit)
unfolding ceiling
ceiling_lem money unit one =
    let top : money + unit - 1 < ceiling money unit * unit + unit = lt-div-mul-add one in
    let low : ceiling money unit * unit ≤ money + unit - 1 =
      div-mul-le_self (money + unit - 1) unit in
    rw (mul_comm unit (ceiling money unit)) (omega (arith, top), omega (arith, low))

factors : (u c : ℕ) → 1 ≤ u * c → (1 ≤ u) × (1 ≤ c)
factors zero c h = absurd (omega arith)
factors (suc u) zero h = absurd (omega arith)
factors (suc u) (suc c) h = (omega arith, omega arith)

module _ (unit_of : ℕ → ℕ) (currency : List (ℕ × ℕ)) where
  -- What comes out of the calls is what was asked for.
  abbrev pub Pays : ℕ → List Call → Type 0
  Pays money cs = (removed unit_of cs ≡ added unit_of cs + money) × All (IsCall unit_of) cs

  split_stack_lem :
      (s : Stack) (money : ℕ)
      → IsCurrency unit_of (2 ^ 32) currency
      → 1 ≤ money
      → money < unit_of s.type_id * s.count
      → unit_of s.type_id * s.count < 2 ^ 32
      → 1 ≤ unit_of s.type_id
      → Pays money (split_stack currency (unit_of s.type_id) s money)
  unfolding split_stack ceiling
  split_stack_lem s money coins some_money less small one =
      let n = ceiling money (unit_of s.type_id) in
      let (enough, tight) = ceiling_lem money (unit_of s.type_id) one in
      let one_more : n < suc s.count = (div-lt_iff_lt-mul one).1 (
        omega
          (arith, add-mul s.count 1 (unit_of s.type_id), mul_comm (unit_of s.type_id) s.count)) in
      let few : n ≤ s.count = omega arith in
      let some_coins : 1 ≤ n = (le-div_iff_mul-le one).1 (omega arith) in
      let fits : unit_of s.type_id * n ≤ unit_of s.type_id * s.count =
        mul-le-mul_left (unit_of s.type_id) few in
      let exact : u32 (unit_of s.type_id * n) ≡ unit_of s.type_id * n = omega arith in
      let (sum, none_taken, well) =
        add_money_lem unit_of (2 ^ 32) currency (unit_of s.type_id * n - money) coins
          (omega arith) in
      rw
        (
          exact,
          removed-append unit_of (add_money currency (unit_of s.type_id * n - money))
              (remove_item s n ∷ []),
          added-append unit_of (add_money currency (unit_of s.type_id * n - money))
              (remove_item s n ∷ []),
          sum,
          none_taken,
        )
        (omega arith, append-All unit_of _ (remove_item s n ∷ []) well ((some_coins, few), tt))

  pay_lem :
      (m : MoneyMap) (money : ℕ)
      → IsCurrency unit_of (2 ^ 32) currency
      → All (IsEntry unit_of) m
      → 1 ≤ money
      → money ≤ money_of unit_of m
      → Pays money (pay currency m money)
  unfolding pay
  pay_lem [] money coins h some_money enough = absurd (omega arith)
  pay_lem ((worth, s) ∷ rest) money coins ((some_worth, small, same), h) some_money enough =
      let (some_unit, some_count) = factors (unit_of s.type_id) s.count (omega arith) in
      let unit : worth / s.count ≡ unit_of s.type_id =
        rw same (mul-div_cancel (unit_of s.type_id) some_count) in
      elim (Bool-cases (ltb worth money)) [
        | inl less ↦
            let (sum, well) = pay_lem rest (money - worth) coins h (ground arith) (ground arith) in
            let low : worth < money = ltb→lt worth money less in
            rw less (omega (arith, sum, same), ((some_count, omega arith), well))
        | inr ge ↦ elim (Bool-cases (ltb money worth)) [
          | inl part ↦
              let low : money < worth = ltb→lt money worth part in
              rw (ge, part, unit)
                (split_stack_lem s money coins some_money (omega arith) (omega arith) some_unit)
          | inr whole ↦
              let equal : worth ≡ money = ground arith in
              rw (ge, whole) (omega (arith, same, equal), ((some_count, omega arith), tt))
        ]
      ]

  -- `removeMoney` ends, however the containers are nested. Where all the coins are worth less than the
  -- money it refuses and calls nothing. Where they are worth enough, the coins that it removes are
  -- worth just the money and the change it gives back; no stack loses more than it has, and none that
  -- it adds is empty or above 100. The table of coins ends with one of worth 1, and the worths fit
  -- their integers.
  pub remove_money_lem :
      (things : Items) (money : ℕ)
      → IsCurrency unit_of (2 ^ 32) currency
      → IsFair unit_of things
      → money_among unit_of things < 2 ^ 64
      → (ok : Bool) × (calls : List Call) × (remove_money unit_of currency things money
          ≡ some (ok, calls))
        × (money_among unit_of things < money → (ok ≡ false) × (calls ≡ []))
        × (money ≤ money_among unit_of things → (ok ≡ true) × Pays money calls)
  unfolding remove_money
  remove_money_lem things money coins fair few = elim (Bool-cases (money == 0)) [
    | inl nothing ↦
        (true, [], rw nothing refl, λ h. absurd (ground arith), λ h. (refl, (ground arith, tt)))
    | inr something ↦
        let (found, ran, (counted, sum, entries)) = search_lem unit_of things few fair in
        elim (Bool-cases (ltb found.money_count money)) [
          | inl poor ↦
              let low = ltb→lt found.money_count money poor in
              (
                false,
                [],
                rw (something, ran, poor) refl,
                λ h. (refl, refl),
                λ h. absurd (omega (arith, h, low, counted)),
              )
          | inr rich ↦ (
            true,
            pay currency found.money_map money,
            rw (something, ran, rich) refl,
            λ h. absurd (ground arith),
            λ h. (
              refl,
              pay_lem found.money_map money coins entries (ground arith) (omega (arith, h, sum)),
            ),
          )
        ]
  ]
