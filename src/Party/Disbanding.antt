-- ===== src/Party/Disbanding.antt =====
-- src/party.cpp: disbanding and withdrawals keep a party and its players in agreement.
use ot_tibia_teste.Common.{
  ℕ, ◌≡◌, refl, sym, ◌∙◌, inl, inr, Option, none, some, Bool, true, false, if◌then◌else◌, arith,
  Bool-cases, contains, erase, contains-erase_ne, contains-erase_self, erase-IsDistinct,
}
use ot_tibia_teste.Party.{
  Party, Players, Env, Outcome, outcome, is_party, is_empty, remove_party_invitation, disband, done,
  remove_invite,
}
use ot_tibia_teste.Party.Membership.{
  IsParty, Frame, Frame-refl, Frame-trans, remove-invited, IsOwned, dissolved, dissolved-IsGone,
  dissolved-Frame,
}
use ot_tibia_teste.Party.Operations.{Keeps}

pub is_party-some : (o : Option ℕ) (a : ℕ) → is_party o a ≡ true → o ≡ some a
is_party-some none a e = cc
is_party-some (some b) a e = ground arith

IsParty-IsOwned : (s : Players) (a : ℕ) (p : Party) → IsParty s a p → IsOwned s a p
IsParty-IsOwned s a p h = record {
  inside = λ x e. sym (h.membership x) ∙ e;
  leader_free = λ b n. ground (arith, h.membership p.leader, is_party-some (s.party_of p.leader) a);
  members_in = λ x e. is_party-some (s.party_of x) a (ground (arith, h.membership x));
  invited_in = λ x e. sym (h.invitation x) ∙ e;
}

-- Where the event allows it, a party disbands and leaves nothing behind.
pub disband-Keeps :
    (env : Env) (a : ℕ) (s : Players) (p : Party)
    → env.on_disband a ≡ true
    → IsOwned s a p
    → Keeps a s (done (disband env a s p))
unfolding disband dissolved
disband-Keeps env a s p e h =
    rw (e, disband) (record { fits = dissolved-IsGone a s p h; frame = dissolved-Frame a s p h })

-- The same after a first change of what the players hold.
pub Keeps-after : (a : ℕ) (s s' : Players) (o : Outcome) → Frame a s s' → Keeps a s' o → Keeps a s o
Keeps-after a s s' o f k = record { fits = k.fits; frame = Frame-trans a s s' o.players f k.frame }

-- The end of `removeInvite` and of `leaveParty`.
settle :
    (env : Env) (a : ℕ) (s : Players) (p : Party) (b : Bool)
    → env.on_disband a ≡ true
    → IsParty s a p
    → Keeps a s (if b then done (disband env a s p) else outcome s (some p) true)
settle env a s p true e h = disband-Keeps env a s p e (IsParty-IsOwned s a p h)
settle env a s p false e h = record { fits = h; frame = Frame-refl a s }

pub settle_done :
    (env : Env) (a : ℕ) (s : Players) (p : Party) (b : Bool)
    → env.on_disband a ≡ true
    → IsParty s a p
    → Keeps a s (done (if b then disband env a s p else (s, some p)))
settle_done env a s p true e h = settle env a s p true e h
settle_done env a s p false e h = settle env a s p false e h

module _ (env : Env) (a player : ℕ) (s : Players) (p : Party) (h : IsParty s a p) where
  uninvite-IsParty :
      contains player p.invitees ≡ true
      → IsParty
          (remove_party_invitation player a s)
          a
          (record p { invitees = erase player p.invitees })
  uninvite-IsParty there = record {
    membership = λ x. unfold remove_party_invitation in h.membership x;
    apart = h.apart;
    distinct = h.distinct;
    invited_once = erase-IsDistinct player p.invitees h.invited_once;
    invitation = λ x. ground (
      arith,
      h.invitation x,
      remove-invited player a a x s,
      contains-erase_ne player x p.invitees,
      contains-erase_self player p.invitees h.invited_once,
    );
  }

  uninvite-Frame : Frame a s (remove_party_invitation player a s)
  uninvite-Frame = record {
    others = λ b x n. unfold remove_party_invitation in refl;
    invites = λ b x n. ground (arith, remove-invited player a b x s);
  }

  pub remove_invite-Keeps :
      env.on_disband a ≡ true → Keeps a s (remove_invite env a player true s p)
  unfolding remove_invite
  remove_invite-Keeps e = elim (Bool-cases (contains player p.invitees)) [
    | inr absent ↦ rw (absent, remove_invite) (record { fits = h; frame = Frame-refl a s })
    | inl there ↦
        let s' = remove_party_invitation player a s in
        let p' : Party = record p { invitees = erase player p.invitees } in
        rw (there, remove_invite)
          (Keeps-after a s s'
            (if is_empty p' then done (disband env a s' p') else outcome s' (some p') true)
            uninvite-Frame (settle env a s' p' (is_empty p') e (uninvite-IsParty there)))
  ]
