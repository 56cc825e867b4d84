-- ===== src/Trade/Examples.antt =====
-- Trades at concrete players and items.
use ot_tibia_teste.Common.{
  ◌≡◌, refl, ◌↔◌, List, [], ◌∷◌, Option, none, some, true, false, ◌==◌, if◌then◌else◌,
}
use ot_tibia_teste.Common.Maps.{insert, erase}
use ot_tibia_teste.Trade.{
  World, Deal, Env, may_accept, is_accepted, player_request_trade, internal_start_trade,
}
use ot_tibia_teste.Trade.Accept.{
  transfer_items, player_accept_trade, on_trade_accept, on_trade_completed,
}
use ot_tibia_teste.Trade.Invariant.{Inv}
use ot_tibia_teste.Trade.Safety.{Safe}
use ot_tibia_teste.Trade.Deals.{Request, request, agree, serve_all, serve_all-Inv, no_trades}
use ot_tibia_teste.Trade.Faults.{Crashes, player_accept_trade-none}

-- Nothing is against any trade; player 1 wears item 10 as the backpack.
abbrev agreeable : Env
agreeable = record {
  in_range = true;
  is_thing_there = true;
  is_same_sprite = true;
  is_pickupable = true;
  is_unique = false;
  invited_only = false;
  is_invited = true;
  is_same_floor = true;
  is_next_to = true;
  is_container = λ i. false;
  is_holding = λ i j. false;
  holding_count = λ i. 0;
  on_request = true;
  can_throw = true;
  accept_event = false;
  accept_reserved = true;
  on_accept = true;
  completed_event = false;
  completed_reserved = true;
  backpack = λ p. if p == 1 then some 10 else none;
  slot_taken = λ p i. false;
  can_add = λ p i. true;
  can_remove = λ i. true;
  first_moved = true;
  second_moved = true;
}

abbrev offers : List Request
offers = request agreeable 1 2 10 ∷ request agreeable 2 1 20 ∷ agree agreeable 1 ∷ []

abbrev bargain : List Request
bargain =
    request agreeable 1 2 10 ∷ request agreeable 2 1 20 ∷ agree agreeable 1 ∷ agree agreeable 2 ∷ []

abbrev deals_of : Option World → List Deal
deals_of none = []
deals_of (some w) = w.deals

bargain_deals :
    deals_of (serve_all bargain (some no_trades))
    ≡ record { player = 2; item = 20; partner = 1; partner_item = 10; is_returned = true } ∷ []
unfolding serve_all player_request_trade internal_start_trade player_accept_trade transfer_items
    on_trade_accept on_trade_completed insert erase
bargain_deals = refl

-- Player 2 agrees before anything was offered for the backpack.
abbrev hasty : List Request
hasty = request agreeable 1 2 10 ∷ agree agreeable 1 ∷ []

abbrev world_of : Option World → World
world_of none = no_trades
world_of (some w) = w

serve_all-Inv_example : Safe (serve_all bargain (some no_trades))
serve_all-Inv_example = serve_all-Inv bargain

abbrev ready : World
ready = world_of (serve_all offers (some no_trades))

abbrev bargained : World
bargained = world_of (serve_all bargain (some no_trades))

half : World
half = world_of (serve_all hasty (some no_trades))

half-Inv : Inv half
unfolding half serve_all player_request_trade internal_start_trade player_accept_trade
    transfer_items on_trade_accept on_trade_completed insert erase
half-Inv = serve_all-Inv hasty

half_may : may_accept (half.traders 2).state ≡ true
unfolding half serve_all player_request_trade internal_start_trade player_accept_trade
    transfer_items on_trade_accept on_trade_completed insert erase
half_may = refl

half_partner : (half.traders 2).partner ≡ some 1
unfolding half serve_all player_request_trade internal_start_trade player_accept_trade
    transfer_items on_trade_accept on_trade_completed insert erase
half_partner = refl

half_agreed : is_accepted (half.traders 1).state ≡ true
unfolding half serve_all player_request_trade internal_start_trade player_accept_trade
    transfer_items on_trade_accept on_trade_completed insert erase
half_agreed = refl

-- The server stops.
half_stops : player_accept_trade agreeable 2 half ≡ none
unfolding half serve_all player_request_trade internal_start_trade player_accept_trade
    transfer_items on_trade_accept on_trade_completed insert erase
half_stops = refl

player_accept_trade-none_example :
    (player_accept_trade agreeable 2 half ≡ none)
    ↔ Crashes agreeable 2 1 (half.traders 2).item (half.traders 1).item
player_accept_trade-none_example =
    player_accept_trade-none agreeable 2 1 half half-Inv half_may half_partner half_agreed refl
