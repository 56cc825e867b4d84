-- ===== src/Money/Examples.antt =====
-- Tests of `Money`, and its theorem at concrete inputs.
use ot_tibia_teste.Common.{
  ℕ, ◌≤◌, ◌<◌, ◌≡◌, refl, List, [], ◌∷◌, Bool, true, false, some, arith, ◌==◌, if◌then◌else◌,
}
use ot_tibia_teste.Money.{
  Stack, Items, stack, container, nil, cons, Call, add_item, remove_item, remove_money, look_into,
  containers_among, scan, visit, emplace_money, give_coins, add_money, ceiling, split_stack, pay,
}
use ot_tibia_teste.Money.Found.{money_among, IsFair}
use ot_tibia_teste.Money.Payment.{Pays, remove_money_lem}

-- Crystal, platinum and gold coins.
abbrev coin : ℕ → ℕ
coin t = if t == 2160 then 10000 else if t == 2152 then 100 else if t == 2148 then 1 else 0

abbrev table : List (ℕ × ℕ)
table = (10000, 2160) ∷ (100, 2152) ∷ (1, 2148) ∷ []

abbrev crystal : Stack
crystal = record { item = 1; type_id = 2160; count = 3 }

abbrev gold : Stack
gold = record { item = 2; type_id = 2148; count = 40 }

-- The crystal coins, a sword, and a bag with the gold.
abbrev pack : Items
pack = cons (stack crystal) (
    cons (stack (record { item = 3; type_id = 2400; count = 1 }))
      (cons (container (cons (stack gold) nil)) nil))

-- The gold goes first, then one crystal coin, and there is change.
pays_12000 :
    remove_money coin table pack 12000
    ≡ some (
      true,
      remove_item gold 40 ∷ add_item 2152 80 ∷ add_item 2148 40 ∷ remove_item crystal 2 ∷ [],
    )
unfolding remove_money look_into containers_among scan visit emplace_money give_coins add_money
    ceiling split_stack pay
pays_12000 = refl

pack-IsFair : IsFair coin pack
unfolding IsFair
pack-IsFair = (omega arith, (omega arith, ((omega arith, tt), tt)))

pack_worth : money_among coin pack ≡ 30040
unfolding money_among
pack_worth = refl

remove_money_lem_example :
    (ok : Bool) × (calls : List Call) × (remove_money coin table pack 12000 ≡ some (ok, calls))
    × (money_among coin pack < 12000 → (ok ≡ false) × (calls ≡ []))
    × (12000 ≤ money_among coin pack → (ok ≡ true) × Pays coin table 12000 calls)
remove_money_lem_example =
    remove_money_lem coin table pack 12000
      (
        omega arith,
        omega arith,
        refl,
        (omega arith, omega arith, refl, (omega arith, omega arith, refl, refl)),
      )
      pack-IsFair (omega (arith, pack_worth))
