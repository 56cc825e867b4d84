-- ===== src/Trade/Faults.antt =====
-- src/game.cpp, src/events.cpp: when `playerAcceptTrade` reads through a null pointer.
use ot_tibia_teste.Common.{
  ℕ, ◌≡◌, refl, sym, subst, ◌⊎◌, ◌↔◌, inl, inr, Option, none, some, Bool, true, false, not, ◌&&◌,
  ◌||◌, if◌then◌else◌, arith,
}
use ot_tibia_teste.Trade.{World, Env, is_accepted, may_accept, same, internal_close_trade}
use ot_tibia_teste.Trade.Accept.{
  room_for, is_exchanged, is_null, on_trade_accept, on_trade_completed, transfer_items,
  player_accept_trade, add_deal,
}
use ot_tibia_teste.Trade.Invariant.{Inv, accept, closed}

-- What comes for a player's own backpack is nothing.
abbrev pub Nothing : Env → ℕ → Option ℕ → Option ℕ → Type 0
Nothing env giver given coming = (same (env.backpack giver) given ≡ true) × (coming ≡ none)

-- One of the two offers nothing.
abbrev pub Missing : Option ℕ → Option ℕ → Type 0
Missing i j = (is_null i || is_null j) ≡ true

-- The script of an event runs.
abbrev pub RunsAccept : Env → Type 0
RunsAccept env = (env.accept_event && env.accept_reserved) ≡ true

abbrev pub RunsCompleted : Env → Type 0
RunsCompleted env = (env.completed_event && env.completed_reserved) ≡ true

-- The transfer, of the items `i` of `p` and `j` of `q`, reads through null: for a backpack, or for the
-- script that is told of the end.
abbrev pub Breaks : Env → ℕ → ℕ → Option ℕ → Option ℕ → Type 0
Breaks env p q i j = Nothing env q j i ⊎ Nothing env p i j ⊎ (RunsCompleted env × Missing i j)

-- Something is missing, and the script that is asked runs, or it is not registered and the transfer
-- reads through null.
abbrev pub Crashes : Env → ℕ → ℕ → Option ℕ → Option ℕ → Type 0
Crashes env p q i j =
    Missing i j × (RunsAccept env ⊎ ((env.accept_event ≡ false) × Breaks env p q i j))

room_for-none :
    (env : Env) (giver : ℕ) (given coming : Option ℕ)
    → (room_for env giver given coming ≡ none) ↔ Nothing env giver given coming
room_for-none env giver given none = (λ e. (ground arith, refl), λ (own, e). rw own refl)
room_for-none env giver given (some i) =
    (λ e. absurd (ground arith), λ (own, e). absurd (ground arith))

completed-none :
    (env : Env) (i j : Option ℕ) (w : World)
    → (on_trade_completed env i j w ≡ none) ↔ (RunsCompleted env × Missing i j)
unfolding on_trade_completed
completed-none env i j w = (λ e. (ground arith, ground arith), λ (run, gone). ground arith)

false-true : false ≡ true → ⊥
false-true e = cc

some-none : (b : Bool) → some b ≡ none → ⊥
some-none b e = ground arith

-- Two questions that may fault, and what follows them.
rooms-none {ℓ} :
    {A : Type ℓ} {C D E : Type 0} (here there : Option Bool) (f : Bool → Bool → Option A)
    → (there ≡ none) ↔ C
    → (here ≡ none) ↔ D
    → ((b a : Bool) → (f b a ≡ none) ↔ E)
    → (elim there [ none ↦ none | some b ↦ elim here [ none ↦ none | some a ↦ f b a ] ] ≡ none)
      ↔ (C ⊎ D ⊎ E)
rooms-none here none f c d h = (λ e. inl (c.0 refl), λ x. refl)
rooms-none none (some b) f c d h = (λ e. inr (inl (d.0 refl)), λ x. refl)
rooms-none (some a) (some b) f c d h = (
  λ e. inr (inr ((h b a).0 e)),
  λ x. elim x [
    | inl y ↦ absurd (some-none b (c.1 y))
    | inr y ↦ elim y [ inl z ↦ absurd (some-none a (d.1 z)) | inr z ↦ (h b a).1 z ]
  ],
)

-- The question to the script, whether it is registered, its environment is reserved, something is
-- missing and it allows the trade, and what follows it.
answer-none :
    {A B : Type 0} (event reserved missing allowed : Bool) (v w : Option A)
    → (v ≡ none → ⊥)
    → (w ≡ none) ↔ B
    → (B → missing ≡ true)
    → (elim (if not event
          then some true
          else if not reserved
          then some false
          else if missing
          then none
          else some allowed) [ none ↦ none | some answer ↦ if not answer then v else w ]
        ≡ none)
      ↔ ((missing ≡ true) × (((event && reserved) ≡ true) ⊎ ((event ≡ false) × B)))
answer-none false reserved missing allowed v w stays (to, from) gone = (
  λ e. (gone (to e), inr (refl, to e)),
  λ (m, x). elim x [ inl run ↦ absurd (ground arith) | inr (e, b) ↦ from b ],
)
answer-none true false missing allowed v w stays h gone = (
  λ e. absurd (stays e),
  λ (m, x). elim x [ inl run ↦ absurd (ground arith) | inr (e, b) ↦ absurd (ground arith) ],
)
answer-none true true true allowed v w stays h gone = (λ e. (refl, inl refl), λ x. refl)
answer-none true true false true v w stays (to, from) gone =
    (λ e. absurd (false-true (gone (to e))), λ (m, x). absurd (false-true m))
answer-none true true false false v w stays h gone =
    (λ e. absurd (stays e), λ (m, x). absurd (false-true m))

module _ (env : Env) (p q : ℕ) (w : World) (h : Inv w) (may : may_accept (w.traders p).state ≡ true)
    (partner : (w.traders p).partner ≡ some q) (agreed : is_accepted (w.traders q).state ≡ true)
    (near : env.can_throw ≡ true) where
  -- The world in which the acceptance is noted.
  abbrev noted : World
  noted = accept p w

  answer_reached :
      player_accept_trade env p w
      ≡ elim (on_trade_accept env (noted.traders p).item (noted.traders q).item) [
        | none ↦ none
        | some allowed ↦
            if not allowed
            then some (internal_close_trade p noted)
            else transfer_items env p q noted
      ]
  unfolding player_accept_trade
  answer_reached =
      let two = h.apart p q partner in
      let other : is_accepted (noted.traders q).state ≡ true = ground arith in ground arith

  item_kept : (r : ℕ) → (w.traders r).item ≡ (noted.traders r).item
  item_kept r = ground arith

Breaks-Missing : (env : Env) (p q : ℕ) (i j : Option ℕ) → Breaks env p q i j → Missing i j
Breaks-Missing env p q i j (inl (own, e)) = rw e refl
Breaks-Missing env p q i j (inr (inl (own, e))) = ground arith
Breaks-Missing env p q i j (inr (inr (run, gone))) = gone

transfer-none :
    (env : Env) (p q : ℕ) (w : World)
    → (transfer_items env p q w ≡ none) ↔ Breaks env p q (w.traders p).item (w.traders q).item
unfolding transfer_items
transfer-none env p q w =
    let i = (w.traders p).item in
    let j = (w.traders q).item in
    rooms-none (room_for env p i j) (room_for env q j i)
      (λ b a. on_trade_completed env i j (
        if b && a && is_exchanged env p i q j
        then record (closed p q w) { deals = add_deal env p i q j w.deals }
        else closed p q w))
      (room_for-none env q j i) (room_for-none env p i j) (λ b a. completed-none env i j _)

answer-Crashes :
    (env : Env) (p q : ℕ) (w v : World)
    → (elim (on_trade_accept env (w.traders p).item (w.traders q).item) [
      | none ↦ none
      | some allowed ↦ if not allowed then some v else transfer_items env p q w
    ]
        ≡ none)
      ↔ Crashes env p q (w.traders p).item (w.traders q).item
unfolding on_trade_accept
answer-Crashes env p q w v =
    let i = (w.traders p).item in
    let j = (w.traders q).item in
    answer-none env.accept_event env.accept_reserved (is_null i || is_null j) env.on_accept (some v)
      (transfer_items env p q w) (λ e. ground arith) (transfer-none env p q w)
      (Breaks-Missing env p q i j)

same_offers :
    {X : Type 0} {i i' j j' : Option ℕ} (env : Env) (p q : ℕ)
    → i ≡ i'
    → j ≡ j'
    → X ↔ Crashes env p q i' j'
    → X ↔ Crashes env p q i j
same_offers {X} {i} {i'} {j} {j'} env p q e f h =
    subst (λ a. X ↔ Crashes env p q a j) (sym e) (subst (λ b. X ↔ Crashes env p q i' b) (sym f) h)

-- Of two partners of whom one has accepted, when the other accepts and the players are close enough:
-- the call reads through a null pointer, which stops the server, if and only if one of the two has
-- offered nothing, and the script for acceptances runs, or it is not registered and the script for
-- completed trades runs, or it is not registered and what the partner of one who has offered nothing
-- offers is the partner's own backpack (no item, if that partner offers nothing and has no backpack).
pub player_accept_trade-none :
    (env : Env) (p q : ℕ) (w : World)
    → Inv w
    → may_accept (w.traders p).state ≡ true
    → (w.traders p).partner ≡ some q
    → is_accepted (w.traders q).state ≡ true
    → env.can_throw ≡ true
    → (player_accept_trade env p w ≡ none) ↔ Crashes env p q (w.traders p).item (w.traders q).item
player_accept_trade-none env p q w h may partner agreed near =
    rw (answer_reached env p q w h may partner agreed near) (
      same_offers env p q (item_kept env p q w h may partner agreed near p)
        (item_kept env p q w h may partner agreed near q)
        (answer-Crashes env p q (accept p w) (internal_close_trade p (accept p w))))
