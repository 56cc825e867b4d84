-- ===== src/Money.antt =====
-- `Game::removeMoney` and `Game::addMoney` of src/game.cpp. The items are those of the player, with
-- what their containers hold; what is done to them comes out as a list of calls of `internalAddItem`
-- and `internalRemoveItem`. `unit_of` is the worth of an item type, 0 for what is no money.
pub mod Change
pub mod Found
pub mod Payment
mod Examples
use ot_tibia_teste.Common.{
  ℕ, zero, suc, ◌+◌, ◌-◌, ◌*◌, ◌/◌, min, List, [], ◌∷◌, ◌++◌, Option, none, some, Bool, true, false,
  ltb, ◌==◌, if◌then◌else◌, ◌>>=◌,
}
use ot_tibia_teste.Common.Words.{u32, u64}

-- An item that is no container: who it is, its type, and its count.
pub record Stack : Type 0 where
  pub item : ℕ
  pub type_id : ℕ
  pub count : ℕ

mutual
  pub data Item : Type 0 where
    stack : Stack → Item
    container : Items → Item

  pub data Items : Type 0 where
    nil : Items
    cons : Item → Items → Items

-- `moneyMap`, a multimap in the order of its keys, and then of insertion.
abbrev pub MoneyMap : Type 0
MoneyMap = List (ℕ × Stack)

unfoldable pub emplace_money : ℕ → Stack → MoneyMap → MoneyMap
emplace_money worth s [] = (worth, s) ∷ []
emplace_money worth s ((w, t) ∷ rest) =
    let later = emplace_money worth s rest in
    if ltb worth w then (worth, s) ∷ (w, t) ∷ rest else (w, t) ∷ later

-- The variables of the search. `containers` has those that are still to be looked into.
pub record Search : Type 0 where
  pub containers : List Items
  pub money_map : MoneyMap
  pub money_count : ℕ

pub data Call : Type 0 where
  add_item : ℕ → ℕ → Call
  remove_item : Stack → ℕ → Call

-- The stacks of up to 100 coins of `addMoney`, with fuel for as many turns as coins.
unfoldable pub give_coins : ℕ → ℕ → ℕ → List Call
give_coins zero type_id coins = []
give_coins (suc fuel) type_id coins =
    let later = give_coins fuel type_id (coins - min 100 coins) in
    if coins == 0 then [] else add_item type_id (min 100 coins) ∷ later

-- `currencyItems` is in the falling order of worth.
unfoldable pub add_money : List (ℕ × ℕ) → ℕ → List Call
add_money [] money = []
add_money ((worth, type_id) ∷ rest) money =
    let coins = u32 (money / worth) in
    let none_of_it = add_money rest money in
    let later = add_money rest (money - coins * worth) in
    if coins == 0 then none_of_it else give_coins coins type_id coins ++ later

-- `ceil(money / worth)`, which is exact on doubles for numbers below 2 ^ 32.
pub ceiling : ℕ → ℕ → ℕ
ceiling money worth = (money + worth - 1) / worth

-- A part of a stack pays, and the change is given.
unfoldable pub split_stack : List (ℕ × ℕ) → ℕ → Stack → ℕ → List Call
unfolding ceiling
split_stack currency unit s money =
    let count = ceiling money unit in
    add_money currency (u32 (unit * count) - money) ++ remove_item s count ∷ []

unfoldable pub pay : List (ℕ × ℕ) → MoneyMap → ℕ → List Call
pay currency [] money = []
pay currency ((worth, s) ∷ rest) money =
    let later = pay currency rest (money - worth) in
    if ltb worth money
    then remove_item s s.count ∷ later
    else if ltb money worth
    then split_stack currency (worth / s.count) s money
    else remove_item s s.count ∷ []

module _ (unit_of : ℕ → ℕ) where
  abbrev pub get_worth : Stack → ℕ
  get_worth s = u32 (unit_of s.type_id * s.count)

  -- The body of both loops.
  unfoldable pub visit : Item → Search → Search
  visit (stack s) r = if get_worth s == 0 then r else record r {
    money_map = emplace_money (get_worth s) s r.money_map;
    money_count = u64 (r.money_count + get_worth s);
  }
  visit (container inner) r = record r { containers = r.containers ++ inner ∷ [] }

  unfoldable pub scan : Items → Search → Search
  scan nil r = r
  scan (cons i rest) r = scan rest (visit i r)

  -- The loop over the containers, with fuel.
  unfoldable pub look_into : ℕ → Search → Option Search
  look_into zero r = none
  look_into (suc fuel) r = elim r.containers [
    | [] ↦ some r
    | c ∷ rest ↦ look_into fuel (scan c (record r { containers = rest }))
  ]

  unfoldable mutual
    pub containers_in : Item → ℕ
    containers_in (stack s) = 0
    containers_in (container inner) = suc (containers_among inner)

    pub containers_among : Items → ℕ
    containers_among nil = 0
    containers_among (cons i rest) = containers_in i + containers_among rest

  -- `removeMoney`: the answer and the calls.
  unfoldable pub remove_money : List (ℕ × ℕ) → Items → ℕ → Option (Bool × List Call)
  remove_money currency things money =
      let search = scan things (record { containers = []; money_map = []; money_count = 0 }) in
      if money == 0
      then some (true, [])
      else look_into (suc (containers_among things)) search >>= λ found.
          (if ltb found.money_count money
            then some (false, [])
            else some (true, pay currency found.money_map money))
