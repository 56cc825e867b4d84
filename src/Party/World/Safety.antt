-- ===== src/Party/World/Safety.antt =====
-- src/game.cpp: no request reads a deleted party, and parties and players always agree.
use ot_tibia_teste.Common.{
  ℕ, ◌≤◌, ◌≡◌, refl, subst, ◌∙◌, ◌≢◌, inl, inr, Option, none, some, Bool, true, false, not, ◌==◌,
  if◌then◌else◌, ◌>>=◌, arith, Option-cases, Bool-cases, contains, ==_iff,
}
use ot_tibia_teste.Party.{
  Party, Players, Outcome, outcome, update, set_party, new_party, invite_player,
}
use ot_tibia_teste.Party.Membership.{IsParty, IsGone, Fits, Frame}
use ot_tibia_teste.Party.Operations.{Keeps, invite_player-Keeps}
use ot_tibia_teste.Party.World.{World, store, at, is_inviting, create, invite_to}

-- Every party fits its players, no player refers to an address without one, and the addresses from
-- `fresh` on are free.
pub record Inv (w : World) : Type 0 where
  pub fits : (a : ℕ) → Fits w.players a (w.parties a)
  pub unused : (a : ℕ) → w.fresh ≤ a → w.parties a ≡ none

Fits-Frame :
    (a b : ℕ) (s s' : Players) (o : Option Party) → Frame a s s' → a ≢ b → Fits s b o → Fits s' b o
Fits-Frame a b s s' none f n h = record {
  nobody = λ x. f.others b x n ∙ h.nobody x;
  uninvited = λ x. f.invites b x n ∙ h.uninvited x;
}
Fits-Frame a b s s' (some p) f n h = record {
  membership = λ x. f.others b x n ∙ h.membership x;
  apart = h.apart;
  distinct = h.distinct;
  invited_once = h.invited_once;
  invitation = λ x. f.invites b x n ∙ h.invitation x;
}

-- A party at an address, and all others as they were.
place-Fits :
    (a : ℕ) (s : Players) (o : Outcome) (parties : ℕ → Option Party)
    → Keeps a s o
    → ((b : ℕ) → Fits s b (parties b))
    → (b : ℕ) → Fits o.players b (update a o.party parties b)
place-Fits a s o parties k h b = elim (Bool-cases (a == b)) [
  | inl e ↦
      let same : a ≡ b = (==_iff a b).0 e in
      rw e (subst (λ c. Fits o.players c o.party) same k.fits)
  | inr e ↦ rw e (Fits-Frame a b s o.players (parties b) k.frame (ground arith) (h b))
]

pub store-Inv :
    (w : World) (a : ℕ) (p : Party) (o : Outcome)
    → Inv w
    → w.parties a ≡ some p
    → Keeps a w.players o
    → Inv (store w a o)
store-Inv w a p o h e k = record {
  fits = place-Fits a w.players o w.parties k h.fits;
  unused = λ b le. ground (arith, h.unused b le, h.unused a);
}

pub party_at :
    (w : World) (a : ℕ) (p : Party) → Inv w → w.parties a ≡ some p → IsParty w.players a p
party_at w a p h e = subst (Fits w.players a) e (h.fits a)

-- A pointer that a player holds leads to a party.
live : (w : World) (x a : ℕ) → Inv w → w.party_of x ≡ some a → (p : Party) × (w.parties a ≡ some p)
live w x a h e = elim (Option-cases (w.parties a)) [
  | inl gone ↦
      let g : IsGone w.players a = subst (Fits w.players a) gone (h.fits a) in
      absurd (ground (arith, g.nobody x))
  | inr found ↦ found
]

-- The request ran to its end, in a world that is in order.
abbrev pub Safe : Option World → Type 0
Safe r = (w : World) × (r ≡ some w) × Inv w

pub stay : (w : World) → Inv w → Safe (some w)
stay w h = (w, refl, h)

module _ (w : World) (h : Inv w) where
  pub at-Safe :
      (x a : ℕ) (f : Party → Option World)
      → w.party_of x ≡ some a
      → ((p : Party) → w.parties a ≡ some p → Safe (f p))
      → Safe (at w a f)
  at-Safe x a f e k = let (p, found) = live w x a h e in rw found (k p found)

  is_inviting-some : (x y : ℕ) → (b : Bool) × (is_inviting w x y ≡ some b)
  unfolding is_inviting
  is_inviting-some x y = elim (Option-cases (w.party_of x)) [
    | inl e ↦ (false, rw (e, is_inviting) refl)
    | inr (a, e) ↦
        let (p, found) = live w x a h e in
        (
          if not (p.leader == x) then false else contains y p.invitees,
          rw (e, found, is_inviting) refl,
        )
  ]

  pub inviting-Safe :
      (x y : ℕ) (f : Bool → Option World)
      → ((b : Bool) → Safe (f b))
      → Safe (is_inviting w x y >>= f)
  inviting-Safe x y f k = let (b, e) = is_inviting-some x y in rw e (k b)

pub if-Safe : (b : Bool) (x y : Option World) → Safe x → Safe y → Safe (if b then x else y)
if-Safe true x y hx hy = hx
if-Safe false x y hx hy = hy

pub case-Safe :
    (o : Option ℕ) (x : Option World) (f : ℕ → Option World)
    → (o ≡ none → Safe x)
    → ((a : ℕ) → o ≡ some a → Safe (f a))
    → Safe (elim o [ none ↦ x | some a ↦ f a ])
case-Safe none x f hx hf = hx refl
case-Safe (some a) x f hx hf = hf a refl

pub store-Safe :
    (w : World) (a : ℕ) (p : Party) (o : Outcome)
    → Inv w
    → w.parties a ≡ some p
    → Keeps a w.players o
    → Safe (some (store w a o))
store-Safe w a p o h e k = (store w a o, refl, store-Inv w a p o h e k)

pub invite_to-Safe :
    (w : World) (a invited : ℕ) (p : Party)
    → Inv w
    → w.parties a ≡ some p
    → Safe (invite_to w a invited)
unfolding invite_to
invite_to-Safe w a invited p h e = rw e (
    store-Safe w a p (invite_player a invited w.players p) h e
      (invite_player-Keeps a invited w.players p (party_at w a p h e)))

create-Keeps :
    (w : World) (player : ℕ)
    → Inv w
    → w.party_of player ≡ none
    → Keeps w.fresh w.players
        (outcome (set_party player (some w.fresh) w.players) (some (new_party player)) true)
unfolding set_party new_party
create-Keeps w player h free =
    let g : IsGone w.players w.fresh =
      subst (Fits w.players w.fresh) (h.unused w.fresh (omega arith)) (h.fits w.fresh) in
    record {
      fits = record {
        membership = λ x. ground (arith, g.nobody x);
        apart = refl;
        distinct = tt;
        invited_once = tt;
        invitation = λ x. g.uninvited x;
      };
      frame = record { others = λ b x n. ground (arith, free); invites = λ b x n. refl };
    }

pub create-Inv : (w : World) (player : ℕ) → Inv w → w.party_of player ≡ none → Inv (create w player)
unfolding create
create-Inv w player h free = record {
  fits =
      place-Fits w.fresh w.players
        (outcome (set_party player (some w.fresh) w.players) (some (new_party player)) true)
        w.parties (create-Keeps w player h free) h.fits;
  unused = λ b le. ground (arith, h.unused b);
}

pub create-party :
    (w : World) (player : ℕ) → (create w player).parties w.fresh ≡ some (new_party player)
unfolding create
create-party w player = ground arith
