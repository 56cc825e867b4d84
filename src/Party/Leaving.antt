-- ===== src/Party/Leaving.antt =====
-- src/party.cpp: leaving keeps a party and its players in agreement.
use ot_tibia_teste.Common.{
  ℕ, ◌≡◌, refl, sym, ◌∙◌, inl, inr, List, [], ◌∷◌, none, some, Bool, true, false, ◌&&◌, ◌==◌,
  if◌then◌else◌, arith, Option-cases, Bool-cases, contains, erase, contains-erase_ne,
  contains-erase_self, contains-erase-false, erase-IsDistinct,
}
use ot_tibia_teste.Common.Maps
use ot_tibia_teste.Party.{
  Party, Players, Env, is_party, is_nil, is_empty, set_party, disband, done,
  update_shared_experience, clear_player_points, pass_party_leadership, replace_leader, take_out,
  leave_party,
}
use ot_tibia_teste.Party.Membership.{IsParty, Frame, Frame-refl, IsOwned}
use ot_tibia_teste.Party.Operations.{
  Keeps, update_shared_experience-IsParty, clear_player_points-IsParty,
  pass_party_leadership-IsParty,
}
use ot_tibia_teste.Party.Disbanding.{is_party-some, disband-Keeps, Keeps-after, settle_done}

-- What `leaveParty` goes on with: `missingLeader` tells whether the player still leads.
record Replaced (s : Players) (a player : ℕ) (r : Party × Bool) : Type 0 where
  party : IsParty s a r.0
  role : r.1 ≡ (r.0.leader == player)

pass-leader :
    (env : Env) (a m : ℕ) (s : Players) (p : Party)
    → (p.leader == m) ≡ false
    → is_party (s.party_of m) a ≡ true
    → (pass_party_leadership env a m s p).0.leader ≡ m
unfolding pass_party_leadership update_shared_experience
pass-leader env a m s p n e = rw (n, e, pass_party_leadership) refl

replace_leader-Replaced :
    (env : Env) (a player : ℕ) (s : Players) (p : Party) (ms : List ℕ)
    → p.members ≡ ms
    → IsParty s a p
    → Replaced s a player (replace_leader env a player s p ms)
unfolding replace_leader
replace_leader-Replaced env a player s p [] e h = record { party = h; role = refl }
replace_leader-Replaced env a player s p (m ∷ ms) e h = elim (Bool-cases (p.leader == player)) [
  | inr other ↦ rw (other, replace_leader) (record { party = h; role = sym other })
  | inl leads ↦ elim (Bool-cases (is_nil ms && is_nil p.invitees)) [
    | inl last ↦ rw (leads, last, replace_leader) (record { party = h; role = sym leads })
    | inr more ↦
        let first : contains m p.members ≡ true = rw e (ground arith) in
        let n : (p.leader == m) ≡ false = ground (arith, h.apart) in
        let mine : is_party (s.party_of m) a ≡ true = ground (arith, h.membership m) in
        rw (leads, more, replace_leader)
          (record {
            party = pass_party_leadership-IsParty env a m s p h;
            role = ground (arith, pass-leader env a m s p n mine);
          })
  ]
]

module _ (a player : ℕ) (s : Players) (p : Party) (h : IsParty s a p) where
  -- One who does not lead is taken out.
  leave-IsParty :
      (p.leader == player) ≡ false
      → IsParty (set_party player none s) a (record p { members = erase player p.members })
  unfolding set_party
  leave-IsParty n = record {
    membership = λ x. ground (
      arith,
      h.membership x,
      contains-erase_ne player x p.members,
      contains-erase_self player p.members h.distinct,
    );
    apart = contains-erase-false player p.leader p.members h.apart;
    distinct = erase-IsDistinct player p.members h.distinct;
    invited_once = h.invited_once;
    invitation = h.invitation;
  }

  leave-Frame : is_party (s.party_of player) a ≡ true → Frame a s (set_party player none s)
  unfolding set_party
  leave-Frame e = record {
    others = λ b x n. ground (arith, is_party-some (s.party_of player) a e);
    invites = λ b x n. refl;
  }

  -- The leader is taken out of a party that is about to disband.
  leave-IsOwned :
      (p.leader == player) ≡ true
      → IsOwned (set_party player none s) a (record p { members = erase player p.members })
  unfolding set_party
  leave-IsOwned l = record {
    inside = λ x e. ground (arith, h.membership x, contains-erase_ne player x p.members);
    leader_free = λ b n. ground arith;
    members_in = λ x e. ground (
      arith,
      h.membership x,
      h.apart,
      contains-erase_ne player x p.members,
      contains-erase_self player p.members h.distinct,
      is_party-some (s.party_of x) a,
    );
    invited_in = λ x e. sym (h.invitation x) ∙ e;
  }

refresh-IsOwned :
    (env : Env) (player : ℕ) (s : Players) (a : ℕ) (p : Party)
    → IsOwned s a p
    → IsOwned s a (clear_player_points env player (update_shared_experience env p))
unfolding clear_player_points update_shared_experience
refresh-IsOwned env player s a p h = elim (Option-cases (Maps.lookup player p.ticks)) [
  | inl e ↦
      rw (e, clear_player_points)
        (record {
          inside = h.inside;
          leader_free = h.leader_free;
          members_in = h.members_in;
          invited_in = h.invited_in;
        })
  | inr (t, e) ↦
      rw (e, clear_player_points)
        (record {
          inside = h.inside;
          leader_free = h.leader_free;
          members_in = h.members_in;
          invited_in = h.invited_in;
        })
]

module _ (env : Env) (a player : ℕ) (s : Players) (e : env.on_disband a ≡ true) where
  take_out-Keeps :
      (r : Party × Bool)
      → is_party (s.party_of player) a ≡ true
      → Replaced s a player r
      → Keeps a s (done (take_out env a player s r))
  unfolding take_out
  take_out-Keeps (p, true) mine k =
      let q : Party =
        clear_player_points env player
          (update_shared_experience env (record p { members = erase player p.members })) in
      Keeps-after a s (set_party player none s) (done (disband env a (set_party player none s) q))
        (leave-Frame a player s p k.party mine)
        (disband-Keeps env a (set_party player none s) q e (
          refresh-IsOwned env player (set_party player none s) a
            (record p { members = erase player p.members })
            (leave-IsOwned a player s p k.party (sym k.role))))
  take_out-Keeps (p, false) mine k =
      let q : Party =
        clear_player_points env player
          (update_shared_experience env (record p { members = erase player p.members })) in
      let fits : IsParty (set_party player none s) a q =
        clear_player_points-IsParty env player (set_party player none s) a
          (update_shared_experience env (record p { members = erase player p.members }))
          (update_shared_experience-IsParty env (set_party player none s) a
            (record p { members = erase player p.members })
            (leave-IsParty a player s p k.party (sym k.role))) in
      Keeps-after a s (set_party player none s)
        (done (
          if is_empty q
          then disband env a (set_party player none s) q
          else (set_party player none s, some q)))
        (leave-Frame a player s p k.party mine)
        (settle_done env a (set_party player none s) q (is_empty q) e fits)

  pub leave_party-Keeps : (p : Party) → IsParty s a p → Keeps a s (leave_party env a player s p)
  unfolding leave_party
  leave_party-Keeps p h = elim (Bool-cases (is_party (s.party_of player) a)) [
    | inr out ↦
        let n : (p.leader == player) ≡ false = ground (arith, h.membership player) in
        rw (out, n, leave_party) (record { fits = h; frame = Frame-refl a s })
    | inl mine ↦ elim (Bool-cases (env.on_leave a player)) [
      | inr refused ↦ rw (mine, refused, leave_party) (record { fits = h; frame = Frame-refl a s })
      | inl allowed ↦
          rw (mine, allowed, leave_party)
            (take_out-Keeps (replace_leader env a player s p p.members) mine
              (replace_leader-Replaced env a player s p p.members refl h))
    ]
  ]
