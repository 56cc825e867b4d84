-- ===== src/Trade.antt =====
-- The trade between two players, in src/game.cpp: requests, acceptance and cancelling. Players and items
-- are numbers, a null pointer is `none`, and reading through one is a fault, `none` of the world. What
-- the map, the inventories and the scripts answer is in `Env`; messages are left out. Acceptance is
-- in Accept.
pub mod Accept
pub mod Invariant
pub mod Safety
pub mod Deals
mod Faults
mod Examples
use ot_tibia_teste.Common.{
  ℕ, suc, ◌+◌, List, [], ◌∷◌, ◌++◌, Option, none, some, Bool, true, false, not, ◌&&◌, ◌||◌, ltb,
  ◌==◌, if◌then◌else◌,
}
use ot_tibia_teste.Common.Maps.{insert, erase}

pub data TradeState : Type 0 where
  idle initiated accepted acknowledge transfer : TradeState

-- What a player keeps of a trade.
pub record Trader : Type 0 where
  pub state : TradeState
  pub item : Option ℕ
  pub partner : Option ℕ

-- An exchange that was made: who gave what to whom. `is_returned` is whether the partner's item was
-- moved too, which the code does not look at.
pub record Deal : Type 0 where
  pub player : ℕ
  pub item : ℕ
  pub partner : ℕ
  pub partner_item : ℕ
  pub is_returned : Bool

-- `trade_items` is `tradeItems`; `deals` is the history of the exchanges.
pub record World : Type 0 where
  pub traders : ℕ → Trader
  pub trade_items : List (ℕ × ℕ)
  pub deals : List Deal

-- The answers to a request and to an acceptance. An event is registered or not, a script's environment
-- is reserved or not, and the script itself answers; `first_moved` and `second_moved` are whether the
-- two moves of items go well.
pub record Env : Type 0 where
  pub in_range : Bool
  pub is_thing_there : Bool
  pub is_same_sprite : Bool
  pub is_pickupable : Bool
  pub is_unique : Bool
  pub invited_only : Bool
  pub is_invited : Bool
  pub is_same_floor : Bool
  pub is_next_to : Bool
  pub is_container : ℕ → Bool
  pub is_holding : ℕ → ℕ → Bool
  pub holding_count : ℕ → ℕ
  pub on_request : Bool
  pub can_throw : Bool
  pub accept_event : Bool
  pub accept_reserved : Bool
  pub on_accept : Bool
  pub completed_event : Bool
  pub completed_reserved : Bool
  pub backpack : ℕ → Option ℕ
  pub slot_taken : ℕ → ℕ → Bool
  pub can_add : ℕ → ℕ → Bool
  pub can_remove : ℕ → Bool
  pub first_moved : Bool
  pub second_moved : Bool

abbrev pub is_idle : TradeState → Bool
is_idle idle = true
is_idle initiated = false
is_idle accepted = false
is_idle acknowledge = false
is_idle transfer = false

abbrev pub is_transfer : TradeState → Bool
is_transfer transfer = true
is_transfer idle = false
is_transfer initiated = false
is_transfer accepted = false
is_transfer acknowledge = false

abbrev pub is_accepted : TradeState → Bool
is_accepted accepted = true
is_accepted idle = false
is_accepted initiated = false
is_accepted acknowledge = false
is_accepted transfer = false

abbrev pub is_acknowledge : TradeState → Bool
is_acknowledge acknowledge = true
is_acknowledge idle = false
is_acknowledge initiated = false
is_acknowledge accepted = false
is_acknowledge transfer = false

-- The states from which a player may accept.
abbrev pub may_accept : TradeState → Bool
may_accept acknowledge = true
may_accept initiated = true
may_accept idle = false
may_accept accepted = false
may_accept transfer = false

-- Equal pointers.
abbrev pub same : Option ℕ → Option ℕ → Bool
same none none = true
same none (some b) = false
same (some a) none = false
same (some a) (some b) = a == b

abbrev pub set_trader : ℕ → Trader → (ℕ → Trader) → ℕ → Trader
set_trader p t f q = if p == q then t else f q

abbrev pub no_trade : Trader
no_trade = record { state = idle; item = none; partner = none }

-- The loops over `tradeItems` of a request: the item, what holds it or what it holds is traded already.
pub is_traded : Env → ℕ → List (ℕ × ℕ) → Bool
is_traded env item [] = false
is_traded env item ((other, id) ∷ rest) =
    item == other
    || (env.is_container item && env.is_holding item other)
    || (env.is_container other && env.is_holding other item)
    || is_traded env item rest

-- `internalStartTrade`
unfoldable pub internal_start_trade : ℕ → ℕ → ℕ → World → World × Bool
internal_start_trade p q item w =
    let a = w.traders p in
    let b = w.traders q in
    if not (is_idle a.state) && not (is_acknowledge a.state && same a.partner (some q))
    then (w, false)
    else if not (is_idle b.state) && not (same b.partner (some p))
    then (w, false)
    else let offered =
        set_trader p (record { state = initiated; item = some item; partner = some q }) w.traders in
      (
        record w {
          traders =
              if is_idle b.state
              then set_trader q (record b { state = acknowledge; partner = some p }) offered
              else offered;
          trade_items = insert item p w.trade_items;
        },
        true,
      )

-- What is asked of the partner, the item and their places, in `playerRequestTrade`; each refusal ends
-- it. `is_invited` is also true where there is no house. A player who is too far from the item is sent to walk there, and asks again later.
pub may_request : Env → Bool
may_request env =
    env.in_range
    && env.can_throw
    && env.is_thing_there
    && env.is_same_sprite
    && env.is_pickupable
    && not env.is_unique
    && (not env.invited_only || env.is_invited)
    && env.is_same_floor
    && env.is_next_to

-- `playerRequestTrade`
unfoldable pub player_request_trade : Env → ℕ → ℕ → ℕ → World → World
unfolding may_request is_traded
player_request_trade env p q item w =
    if q == p
    then w
    else if not (may_request env)
    then w
    else if is_traded env item w.trade_items
    then w
    else if env.is_container item && ltb 100 (env.holding_count item + 1)
    then w
    else if not env.on_request
    then w
    else (internal_start_trade p q item w).0

abbrev pub erase_item : Option ℕ → List (ℕ × ℕ) → List (ℕ × ℕ)
erase_item none items = items
erase_item (some i) items = erase i items

-- A player's part of `internalCloseTrade`.
unfoldable pub leave_trade : ℕ → World → World
leave_trade p w = record w {
  traders = set_trader p no_trade w.traders;
  trade_items = erase_item (w.traders p).item w.trade_items;
}

abbrev pub partner_state : Option ℕ → (ℕ → Trader) → TradeState
partner_state none f = idle
partner_state (some q) f = (f q).state

-- `internalCloseTrade`
unfoldable pub internal_close_trade : ℕ → World → World
unfolding leave_trade
internal_close_trade p w =
    if is_transfer (partner_state (w.traders p).partner w.traders)
      || is_transfer (w.traders p).state
    then w
    else elim (w.traders p).partner [
      | none ↦ leave_trade p w
      | some q ↦ leave_trade q (leave_trade p w)
    ]
