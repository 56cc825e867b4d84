-- ===== src/Trade/Safety.antt =====
-- src/game.cpp: whatever players ask of their trades, the trades stay in order.
use ot_tibia_teste.Common.{
  ℕ, ◌+◌, ◌≡◌, refl, inl, inr, List, [], ◌∷◌, Option, none, some, Bool, true, false, not, ◌&&◌,
  ◌||◌, ltb, ◌==◌, if◌then◌else◌, arith, Bool-cases, Option-cases,
}
use ot_tibia_teste.Common.Maps.{lookup}
use ot_tibia_teste.Trade.{
  TradeState, idle, initiated, accepted, acknowledge, transfer, World, Deal, Env, may_request,
  is_idle, is_accepted, is_acknowledge, may_accept, same, is_traded, internal_start_trade,
  player_request_trade, leave_trade, internal_close_trade,
}
use ot_tibia_teste.Trade.Accept.{
  room_for, is_exchanged, add_deal, is_null, on_trade_accept, on_trade_completed, transfer_items,
  player_accept_trade,
}
use ot_tibia_teste.Trade.Invariant.{
  Inv, idle-IsAlone, first_offer-Inv, counter_offer-Inv, accept, accept-Inv, closed, closed-Inv,
}

-- An item that is not traded is not listed.
is_traded-lookup :
    (env : Env) (item : ℕ) (items : List (ℕ × ℕ))
    → is_traded env item items ≡ false
    → lookup item items ≡ none
unfolding is_traded lookup
is_traded-lookup env item [] h = refl
is_traded-lookup env item (e ∷ rest) h = ground (arith, is_traded-lookup env item rest)

same_lem : (o : Option ℕ) (q : ℕ) → same o (some q) ≡ true → o ≡ some q
same_lem none q h = absurd (ground arith)
same_lem (some a) q h = ground arith

same_self : (q : ℕ) → same (some q) (some q) ≡ true
same_self q = ground arith

acknowledge_lem : (s : TradeState) → is_acknowledge s ≡ true → s ≡ acknowledge
acknowledge_lem acknowledge h = refl
acknowledge_lem initiated h = absurd (ground arith)
acknowledge_lem accepted h = absurd (ground arith)
acknowledge_lem idle h = absurd (ground arith)
acknowledge_lem transfer h = absurd (ground arith)

module _ (p q item : ℕ) (w : World) (h : Inv w) (two : (p == q) ≡ false)
    (new : lookup item w.trade_items ≡ none) where
  -- The player has no trade yet.
  start_alone : is_idle (w.traders p).state ≡ true → Inv (internal_start_trade p q item w).0
  unfolding internal_start_trade
  start_alone e =
      let alone = idle-IsAlone w p h e in
      elim (Bool-cases (is_idle (w.traders q).state)) [
        | inl f ↦
            let partner_alone = idle-IsAlone w q h f in
            rw (e, f, partner_alone.1) (first_offer-Inv p q item w h two alone partner_alone new)
        | inr f ↦
            let stranger : same (w.traders q).partner (some p) ≡ false =
              elim (Bool-cases (same (w.traders q).partner (some p))) [
                | inl g ↦
                    absurd
                      (ground (arith, alone, h.paired q p (same_lem (w.traders q).partner p g)))
                | inr g ↦ g
              ] in
            rw (e, f, stranger) h
      ]

  -- The player was asked by someone, or is in a trade.
  start_asked : is_idle (w.traders p).state ≡ false → Inv (internal_start_trade p q item w).0
  unfolding internal_start_trade
  start_asked e =
      elim (Bool-cases
        (is_acknowledge (w.traders p).state && same (w.traders p).partner (some q))) [
          | inl f ↦
              let asking : is_acknowledge (w.traders p).state ≡ true = ground arith in
              let partner : (w.traders p).partner ≡ some q =
                same_lem (w.traders p).partner q (ground arith) in
              let back : (w.traders q).partner ≡ some p = h.paired p q partner in
              let mate : same (w.traders q).partner (some p) ≡ true = rw back (same_self p) in
              rw (e, f, h.busy q p back, mate)
                (counter_offer-Inv p q item w h partner
                  (h.silent p (acknowledge_lem (w.traders p).state asking)) new)
          | inr f ↦ rw (e, f) h
        ]

  internal_start_trade-Inv : Inv (internal_start_trade p q item w).0
  internal_start_trade-Inv = elim (Bool-cases (is_idle (w.traders p).state)) [
    | inl e ↦ start_alone e
    | inr e ↦ start_asked e
  ]

if-Inv : (b : Bool) (v w : World) → Inv v → (b ≡ false → Inv w) → Inv (if b then v else w)
if-Inv true v w h k = h
if-Inv false v w h k = k refl

pub request-Inv :
    (env : Env) (p q item : ℕ) (w : World) → Inv w → Inv (player_request_trade env p q item w)
unfolding player_request_trade
request-Inv env p q item w h = if-Inv (q == p) w _ h λ two.
    if-Inv (not (may_request env)) w _ h λ near.
      if-Inv (is_traded env item w.trade_items) w _ h λ new.
        if-Inv (env.is_container item && ltb 100 (env.holding_count item + 1)) w _ h λ few.
          if-Inv (not env.on_request) w _ h λ agreed.
            internal_start_trade-Inv p q item w h (ground arith)
              (is_traded-lookup env item w.trade_items new)

leave_alone-Inv : (p : ℕ) (w : World) → Inv w → (w.traders p).partner ≡ none → Inv (leave_trade p w)
unfolding leave_trade
leave_alone-Inv p w h e =
    let alone = h.alone p e in
    rw alone.1 (record {
      paired = λ a b e. ground (arith, h.paired a b, h.paired b a);
      apart = λ a b e. ground (arith, h.apart a b);
      alone = λ a e. ground (arith, h.alone a);
      busy = λ a b e. ground (arith, h.busy a b);
      settled = λ a. ground (arith, h.settled a);
      silent = λ a e. ground (arith, h.silent a);
      offering = λ a e. ground (arith, h.offering a);
      owned = λ a i e. ground (arith, h.owned a i);
      listed = λ a i e. ground (arith, h.listed a i);
    })

close_two :
    (p q : ℕ) (w : World)
    → Inv w
    → (w.traders p).partner ≡ some q
    → Inv (leave_trade q (leave_trade p w))
unfolding leave_trade
close_two p q w h e = let two = h.apart p q e in rw two (closed-Inv p q w h e)

pub close-Inv : (p : ℕ) (w : World) → Inv w → Inv (internal_close_trade p w)
unfolding internal_close_trade
close-Inv p w h = elim (Option-cases (w.traders p).partner) [
  | inl e ↦ rw (e, h.settled p) (leave_alone-Inv p w h e)
  | inr (q, e) ↦ rw (e, h.settled q, h.settled p) (close_two p q w h e)
]

-- The world after a step that did not fault.
abbrev pub Safe : Option World → Type 0
Safe none = Unit
Safe (some w) = Inv w

if-Safe :
    (b : Bool) (v w : Option World) → Safe v → (b ≡ false → Safe w) → Safe (if b then v else w)
if-Safe true v w h k = h
if-Safe false v w h k = k refl

completed-Safe :
    (env : Env) (i j : Option ℕ) (w : World) → Inv w → Safe (on_trade_completed env i j w)
unfolding on_trade_completed
completed-Safe env i j w h = if-Safe (not env.completed_event) (some w) _ h λ registered.
    if-Safe (not env.completed_reserved) (some w) _ h
      λ reserved. if-Safe (is_null i || is_null j) none (some w) tt λ there. h

-- The history is no part of the invariant.
with_deals : World → List Deal → World
with_deals w deals = record w { deals = deals }

with_deals-Inv : (w : World) (deals : List Deal) → Inv w → Inv (with_deals w deals)
unfolding with_deals
with_deals-Inv w deals h = record {
  paired = h.paired;
  apart = h.apart;
  alone = h.alone;
  busy = h.busy;
  settled = h.settled;
  silent = h.silent;
  offering = h.offering;
  owned = h.owned;
  listed = h.listed;
}

module _ (p q : ℕ) (w : World) (h : Inv w) (partner : (w.traders p).partner ≡ some q) where
  rooms-Safe :
      (env : Env) (here there : Option Bool) (exchanged : Bool)
      → Safe (elim there [
        | none ↦ none
        | some partner_room ↦ elim here [
          | none ↦ none
          | some room ↦ on_trade_completed env (w.traders p).item (w.traders q).item (
              if partner_room && room && exchanged
              then record (closed p q w) {
                deals = add_deal env p (w.traders p).item q (w.traders q).item w.deals;
              }
              else closed p q w)
        ]
      ])
  unfolding with_deals
  rooms-Safe env here none exchanged = tt
  rooms-Safe env none (some there) exchanged = tt
  rooms-Safe env (some room) (some there) exchanged =
      let after = closed-Inv p q w h partner in
      let deals = add_deal env p (w.traders p).item q (w.traders q).item w.deals in
      completed-Safe env (w.traders p).item (w.traders q).item _ (
        if-Inv (there && room && exchanged) (with_deals (closed p q w) deals) (closed p q w)
          (with_deals-Inv (closed p q w) deals after) λ _. after)

transfer-Safe :
    (env : Env) (p q : ℕ) (w : World)
    → Inv w
    → (w.traders p).partner ≡ some q
    → Safe (transfer_items env p q w)
unfolding transfer_items
transfer-Safe env p q w h partner =
    rooms-Safe p q w h partner env (room_for env p (w.traders p).item (w.traders q).item)
      (room_for env q (w.traders q).item (w.traders p).item)
      (is_exchanged env p (w.traders p).item q (w.traders q).item)

answer-Safe :
    (answer : Option Bool) (v w : Option World)
    → Safe v
    → Safe w
    → Safe (elim answer [ none ↦ none | some allowed ↦ if not allowed then v else w ])
answer-Safe none v w h k = tt
answer-Safe (some true) v w h k = k
answer-Safe (some false) v w h k = h

pub accept-Safe : (env : Env) (p : ℕ) (w : World) → Inv w → Safe (player_accept_trade env p w)
unfolding player_accept_trade
accept-Safe env p w h = if-Safe (not (may_accept (w.traders p).state)) (some w) _ h λ may.
    elim (Option-cases (w.traders p).partner) [
      | inl e ↦ rw e h
      | inr (q, e) ↦
          let h' = accept-Inv p q w h e in
          let partner : ((accept p w).traders p).partner ≡ some q = ground arith in
          let left = close-Inv p (accept p w) h' in
          rw e (
            if-Safe (not (is_accepted ((accept p w).traders q).state)) (some (accept p w)) _ h'
              λ both.
                if-Safe (not env.can_throw) (some (internal_close_trade p (accept p w))) _ left
                  λ near.
                    answer-Safe
                      (on_trade_accept env ((accept p w).traders p).item
                        ((accept p w).traders q).item)
                      (some (internal_close_trade p (accept p w)))
                      (transfer_items env p q (accept p w)) left
                      (transfer-Safe env p q (accept p w) h' partner))
    ]
