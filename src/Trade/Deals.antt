-- ===== src/Trade/Deals.antt =====
-- src/game.cpp: requests one after another, and the exchanges that they make.
use ot_tibia_teste.Common.{
  ℕ, ◌≡◌, refl, ◌⊎◌, List, [], ◌∷◌, Option, none, some, true, false, ◌==◌, arith,
}
use ot_tibia_teste.Common.Maps.{lookup}
use ot_tibia_teste.Trade.{
  accepted, World, Deal, Env, is_accepted, may_accept, no_trade, player_request_trade,
  internal_close_trade,
}
use ot_tibia_teste.Trade.Accept.{player_accept_trade}
use ot_tibia_teste.Trade.Invariant.{Inv, accept}
use ot_tibia_teste.Trade.Safety.{Safe, request-Inv, close-Inv, accept-Safe}

-- What players ask, with the answers to it.
pub data Request : Type 0 where
  request : Env → ℕ → ℕ → ℕ → Request
  agree : Env → ℕ → Request
  close : ℕ → Request

unfoldable pub serve : Request → World → Option World
serve (request env p q item) w = some (player_request_trade env p q item w)
serve (agree env p) w = player_accept_trade env p w
serve (close p) w = some (internal_close_trade p w)

-- No request is served after a fault.
unfoldable pub serve_all : List Request → Option World → Option World
unfolding serve
serve_all [] w = w
serve_all (r ∷ rest) none = none
serve_all (r ∷ rest) (some w) = serve_all rest (serve r w)

abbrev pub no_trades : World
no_trades = record { traders = λ p. no_trade; trade_items = []; deals = [] }

no_trades-Inv : Inv no_trades
unfolding lookup
no_trades-Inv = record {
  paired = λ p q e. ground arith;
  apart = λ p q e. ground arith;
  alone = λ p e. ground arith;
  busy = λ p q e. ground arith;
  settled = λ p. refl;
  silent = λ p e. refl;
  offering = λ p e. ground arith;
  owned = λ p i e. ground arith;
  listed = λ p i e. ground arith;
}

serve-Safe : (r : Request) (w : World) → Inv w → Safe (serve r w)
unfolding serve
serve-Safe (request env p q item) w h = request-Inv env p q item w h
serve-Safe (agree env p) w h = accept-Safe env p w h
serve-Safe (close p) w h = close-Inv p w h

serve_all-Safe : (rs : List Request) (w : Option World) → Safe w → Safe (serve_all rs w)
unfolding serve_all
serve_all-Safe [] w h = h
serve_all-Safe (r ∷ rest) none h = tt
serve_all-Safe (r ∷ rest) (some w) h = serve_all-Safe rest (serve r w) (serve-Safe r w h)

-- Whatever players ask of their trades, in whatever order and whatever the answers, from the start on:
-- unless a request faults, partners are each other's and never one's own, a player without a partner
-- is idle and offers nothing, one with a partner is not idle, a player who was only asked offers
-- nothing and one who has made an offer offers an item, no player is in the state of a transfer, and an item is
-- listed as traded under a player if and only if that player offers it.
pub serve_all-Inv : (rs : List Request) → Safe (serve_all rs (some no_trades))
serve_all-Inv rs = serve_all-Safe rs (some no_trades) no_trades-Inv

-- A deal that both had agreed to, on what each had offered.
pub record IsFair (w : World) (d : Deal) : Type 0 where
  pub agreeing : may_accept (w.traders d.player).state ≡ true
  pub agreed : (w.traders d.partner).state ≡ accepted
  pub to_partner : (w.traders d.player).partner ≡ some d.partner
  pub to_player : (w.traders d.partner).partner ≡ some d.player
  pub two : (d.player == d.partner) ≡ false
  pub offered : (w.traders d.player).item ≡ some d.item
  pub partner_offered : (w.traders d.partner).item ≡ some d.partner_item
  pub distinct : (d.item == d.partner_item) ≡ false

-- The end of a deal.
pub record IsOver (w : World) (d : Deal) : Type 0 where
  pub player_left : w.traders d.player ≡ no_trade
  pub partner_left : w.traders d.partner ≡ no_trade
  pub unlisted : lookup d.item w.trade_items ≡ none
  pub partner_unlisted : lookup d.partner_item w.trade_items ≡ none

abbrev pub DealMade : Env → World → World → Type 0
DealMade env w w' =
    (d : Deal) × (w'.deals ≡ d ∷ w.deals)
    × IsFair w d
    × IsOver w' d
    × (d.is_returned ≡ env.second_moved)

abbrev pub Fair : Env → World → Option World → Type 0
Fair env w none = Unit
Fair env w (some w') = (w'.deals ≡ w.deals) ⊎ DealMade env w w'

module _ (env : Env) (p q : ℕ) (w : World) (h : Inv w) (may : may_accept (w.traders p).state ≡ true)
    (partner : (w.traders p).partner ≡ some q)
    (agreed : is_accepted (w.traders q).state ≡ true) where
  -- The state after `player_accept_trade` has noted the acceptance.
  abbrev now : World
  now = accept p w
