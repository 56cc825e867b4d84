-- ===== src/Trade/Accept.antt =====
-- `playerAcceptTrade` of src/game.cpp, with the scripts of src/events.cpp that are asked and told.
use ot_tibia_teste.Common.{
  ℕ, List, ◌∷◌, Option, none, some, Bool, true, false, not, ◌&&◌, ◌||◌, if◌then◌else◌,
}
use ot_tibia_teste.Trade.{
  accepted, World, Deal, Env, is_accepted, may_accept, same, set_trader, no_trade, erase_item,
  internal_close_trade,
}

-- Whether there is room when a player's own backpack is given away: the type of the item that comes
-- instead is read.
abbrev pub room_for : Env → ℕ → Option ℕ → Option ℕ → Option Bool
room_for env giver given coming =
    if same (env.backpack giver) given
    then elim coming [ none ↦ none | some i ↦ some (not (env.slot_taken giver i)) ]
    else some true

-- The exchange itself, when nothing was null: whether it was made. A null item cannot be added.
unfoldable pub is_exchanged : Env → ℕ → Option ℕ → ℕ → Option ℕ → Bool
is_exchanged env p (some i) q (some j) =
    not (same (env.backpack p) (some i) && same (env.backpack q) (some j))
    && env.can_add q i
    && env.can_add p j
    && env.can_remove i
    && env.can_remove j
    && env.first_moved
is_exchanged env p none q j = false
is_exchanged env p (some i) q none = false

-- The second move, of the partner's item, is tried after the first, and its result is not looked at.
abbrev pub add_deal : Env → ℕ → Option ℕ → ℕ → Option ℕ → List Deal → List Deal
add_deal env p (some i) q (some j) deals =
    record { player = p; item = i; partner = q; partner_item = j; is_returned = env.second_moved }
    ∷ deals
add_deal env p none q j deals = deals
add_deal env p (some i) q none deals = deals

abbrev pub is_null : Option ℕ → Bool
is_null none = true
is_null (some i) = false

-- `Events::eventPlayerOnTradeAccept` of src/events.cpp: a script that runs is given both items, and a
-- null one is read through by `setItemMetatable` of src/luascript.cpp.
unfoldable pub on_trade_accept : Env → Option ℕ → Option ℕ → Option Bool
on_trade_accept env i j =
    if not env.accept_event
    then some true
    else if not env.accept_reserved
    then some false
    else if is_null i || is_null j
    then none
    else some env.on_accept

-- `Events::eventPlayerOnTradeCompleted`, likewise, with the world after it.
unfoldable pub on_trade_completed : Env → Option ℕ → Option ℕ → World → Option World
on_trade_completed env i j w =
    if not env.completed_event
    then some w
    else if not env.completed_reserved
    then some w
    else if is_null i || is_null j
    then none
    else some w

-- Both have accepted, and nothing is against it.
unfoldable pub transfer_items : Env → ℕ → ℕ → World → Option World
unfolding is_exchanged
transfer_items env p q w =
    let i = (w.traders p).item in
    let j = (w.traders q).item in
    let closed = record w {
      traders = set_trader q no_trade (set_trader p no_trade w.traders);
      trade_items = erase_item j (erase_item i w.trade_items);
    } in
    elim (room_for env q j i) [
      | none ↦ none
      | some partner_room ↦ elim (room_for env p i j) [
        | none ↦ none
        | some room ↦ on_trade_completed env i j (
            if partner_room && room && is_exchanged env p i q j
            then record closed { deals = add_deal env p i q j w.deals }
            else closed)
      ]
    ]

-- `playerAcceptTrade`
unfoldable pub player_accept_trade : Env → ℕ → World → Option World
player_accept_trade env p w =
    if not (may_accept (w.traders p).state) then some w else elim (w.traders p).partner [
      | none ↦ some w
      | some q ↦
          let w' = record w {
            traders = set_trader p (record (w.traders p) { state = accepted }) w.traders;
          } in
          if not (is_accepted (w'.traders q).state)
          then some w'
          else if not env.can_throw
          then some (internal_close_trade p w')
          else elim (on_trade_accept env (w'.traders p).item (w'.traders q).item) [
            | none ↦ none
            | some allowed ↦
                if not allowed then some (internal_close_trade p w') else transfer_items env p q w'
          ]
    ]
