-- ===== src/Trade/Invariant.antt =====
-- src/game.cpp: what holds of all trades between two requests.
use ot_tibia_teste.Common.{
  ℕ, ◌≡◌, refl, List, Option, none, some, Bool, true, false, ◌==◌, if◌then◌else◌, arith,
  Option-cases, inl, inr,
}
use ot_tibia_teste.Common.Maps.{lookup, insert, lookup-insert, lookup-erase}
use ot_tibia_teste.Trade.{
  idle, initiated, accepted, acknowledge, Trader, World, is_idle, is_transfer, same, set_trader,
  no_trade, erase_item,
}

abbrev pub is_some : Option ℕ → Bool
is_some none = false
is_some (some i) = true

abbrev pub IsAlone : Trader → Type 0
IsAlone t = (t.state ≡ idle) × (t.item ≡ none) × (t.partner ≡ none)

-- Partners are each other's, no one's own; who has none is idle and offers nothing; who has one is not
-- idle, and has made an offer if and only if the state says so, but for `accepted`. What is offered is
-- listed under who offers it, and nothing else is.
pub record Inv (w : World) : Type 0 where
  pub paired : (p q : ℕ) → (w.traders p).partner ≡ some q → (w.traders q).partner ≡ some p
  pub apart : (p q : ℕ) → (w.traders p).partner ≡ some q → (p == q) ≡ false
  pub alone : (p : ℕ) → (w.traders p).partner ≡ none → IsAlone (w.traders p)
  pub busy : (p q : ℕ) → (w.traders p).partner ≡ some q → is_idle (w.traders p).state ≡ false
  pub settled : (p : ℕ) → is_transfer (w.traders p).state ≡ false
  pub silent : (p : ℕ) → (w.traders p).state ≡ acknowledge → (w.traders p).item ≡ none
  pub offering : (p : ℕ) → (w.traders p).state ≡ initiated → is_some (w.traders p).item ≡ true
  pub owned : (p i : ℕ) → (w.traders p).item ≡ some i → lookup i w.trade_items ≡ some p
  pub listed : (p i : ℕ) → lookup i w.trade_items ≡ some p → (w.traders p).item ≡ some i

-- Who is idle has no trade.
pub idle-IsAlone :
    (w : World) (p : ℕ) → Inv w → is_idle (w.traders p).state ≡ true → IsAlone (w.traders p)
idle-IsAlone w p h e = elim (Option-cases (w.traders p).partner) [
  | inl none_there ↦ h.alone p none_there
  | inr (q, there) ↦ absurd (ground (arith, h.busy p q there))
]

abbrev pub offer : ℕ → ℕ → Trader
offer q item = record { state = initiated; item = some item; partner = some q }

abbrev pub asked : ℕ → Trader
asked p = record { state = acknowledge; item = none; partner = some p }

-- A first offer, to a player who has no trade.
abbrev pub first_offer : ℕ → ℕ → ℕ → World → World
first_offer p q item w = record w {
  traders = set_trader q (asked p) (set_trader p (offer q item) w.traders);
  trade_items = insert item p w.trade_items;
}

pub first_offer-Inv :
    (p q item : ℕ) (w : World)
    → Inv w
    → (p == q) ≡ false
    → IsAlone (w.traders p)
    → IsAlone (w.traders q)
    → lookup item w.trade_items ≡ none
    → Inv (first_offer p q item w)
first_offer-Inv p q item w h two alone_p alone_q new = record {
  paired = λ a b e. ground (arith, h.paired a b, h.paired p b, h.paired q b, h.paired b a);
  apart = λ a b e. ground (arith, h.apart a b);
  alone = λ a e. ground (arith, h.alone a);
  busy = λ a b e. ground (arith, h.busy a b);
  settled = λ a. ground (arith, h.settled a);
  silent = λ a e. ground (arith, h.silent a);
  offering = λ a e. ground (arith, h.offering a);
  owned = λ a i e. ground (arith, h.owned a i, lookup-insert item i p w.trade_items);
  listed = λ a i e. ground (arith, h.listed a i, lookup-insert item i p w.trade_items);
}

-- The counter-offer of who was asked.
abbrev pub counter_offer : ℕ → ℕ → ℕ → World → World
counter_offer p q item w = record w {
  traders = set_trader p (offer q item) w.traders;
  trade_items = insert item p w.trade_items;
}

pub counter_offer-Inv :
    (p q item : ℕ) (w : World)
    → Inv w
    → (w.traders p).partner ≡ some q
    → (w.traders p).item ≡ none
    → lookup item w.trade_items ≡ none
    → Inv (counter_offer p q item w)
counter_offer-Inv p q item w h partner silent new = record {
  paired = λ a b e. ground (arith, h.paired a b, h.paired p q, h.paired b a);
  apart = λ a b e. ground (arith, h.apart a b, h.apart p q);
  alone = λ a e. ground (arith, h.alone a);
  busy = λ a b e. ground (arith, h.busy a b);
  settled = λ a. ground (arith, h.settled a);
  silent = λ a e. ground (arith, h.silent a);
  offering = λ a e. ground (arith, h.offering a);
  owned = λ a i e. ground (arith, h.owned a i, lookup-insert item i p w.trade_items);
  listed = λ a i e. ground (arith, h.listed a i, lookup-insert item i p w.trade_items);
}

-- The acceptance of one of the two.
abbrev pub accept : ℕ → World → World
accept p w = record w {
  traders = set_trader p (record (w.traders p) { state = accepted }) w.traders;
}

pub accept-Inv : (p q : ℕ) (w : World) → Inv w → (w.traders p).partner ≡ some q → Inv (accept p w)
accept-Inv p q w h partner = record {
  paired = λ a b e. ground (arith, h.paired a b, h.paired p b, h.paired p q);
  apart = λ a b e. ground (arith, h.apart a b, h.apart p b);
  alone = λ a e. ground (arith, h.alone a);
  busy = λ a b e. ground (arith, h.busy a b);
  settled = λ a. ground (arith, h.settled a);
  silent = λ a e. ground (arith, h.silent a);
  offering = λ a e. ground (arith, h.offering a);
  owned = λ a i e. ground (arith, h.owned a i, h.owned p i);
  listed = λ a i e. ground (arith, h.listed a i, h.listed p i);
}

-- The end of a trade of two partners.
abbrev pub closed : ℕ → ℕ → World → World
closed p q w = record w {
  traders = set_trader q no_trade (set_trader p no_trade w.traders);
  trade_items = erase_item (w.traders q).item (erase_item (w.traders p).item w.trade_items);
}

pub lookup-erase_item :
    (o : Option ℕ) (i : ℕ) (m : List (ℕ × ℕ))
    → lookup i (erase_item o m) ≡ (if same o (some i) then none else lookup i m)
lookup-erase_item none i m = refl
lookup-erase_item (some j) i m = lookup-erase j i m

pub closed-Inv : (p q : ℕ) (w : World) → Inv w → (w.traders p).partner ≡ some q → Inv (closed p q w)
closed-Inv p q w h partner = record {
  paired = λ a b e. ground (arith, h.paired a b, h.paired p q, h.paired b a);
  apart = λ a b e. ground (arith, h.apart a b);
  alone = λ a e. ground (arith, h.alone a);
  busy = λ a b e. ground (arith, h.busy a b);
  settled = λ a. ground (arith, h.settled a);
  silent = λ a e. ground (arith, h.silent a);
  offering = λ a e. ground (arith, h.offering a);
  owned = λ a i e. ground (
    arith,
    h.owned a i,
    h.owned p i,
    h.owned q i,
    lookup-erase_item (w.traders q).item i (erase_item (w.traders p).item w.trade_items),
    lookup-erase_item (w.traders p).item i w.trade_items,
  );
  listed = λ a i e. ground (
    arith,
    h.listed a i,
    h.owned p i,
    h.owned q i,
    lookup-erase_item (w.traders q).item i (erase_item (w.traders p).item w.trade_items),
    lookup-erase_item (w.traders p).item i w.trade_items,
  );
}
