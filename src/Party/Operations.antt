-- ===== src/Party/Operations.antt =====
-- src/party.cpp: every operation keeps a party and its players in agreement.
use ot_tibia_teste.Common.{
  ℕ, ◌≡◌, inl, inr, [], ◌∷◌, none, some, ◌==◌, arith, Option-cases, Bool-cases, contains,
  contains-erase_ne, contains-erase_self, contains-erase-false, erase-IsDistinct, contains-append,
  snoc-IsDistinct,
}
use ot_tibia_teste.Common.Maps
use ot_tibia_teste.Party.{
  Party, Players, Env, Outcome, is_party, set_party, add_party_invitation, remove_party_invitation,
  update_shared_experience, clear_player_points, pass_party_leadership, join_party, invite_player,
}
use ot_tibia_teste.Party.Membership.{IsParty, Fits, Frame, Frame-refl, remove-invited, add-invited}

-- After an operation the party fits its players or is gone, and other parties see no difference.
pub record Keeps (a : ℕ) (s : Players) (o : Outcome) : Type 0 where
  pub fits : Fits o.players a o.party
  pub frame : Frame a s o.players

pub invite_player-Keeps :
    (a player : ℕ) (s : Players) (p : Party)
    → IsParty s a p
    → Keeps a s (invite_player a player s p)
unfolding invite_player
invite_player-Keeps a player s p h = elim (Bool-cases (contains player p.invitees)) [
  | inl there ↦ rw (there, invite_player) (record { fits = h; frame = Frame-refl a s })
  | inr new ↦
      rw (new, invite_player)
        (record {
          fits = record {
            membership = λ x. unfold add_party_invitation in ground (arith, h.membership x);
            apart = h.apart;
            distinct = h.distinct;
            invited_once = snoc-IsDistinct p.invitees player h.invited_once new;
            invitation = λ x. ground (
              arith,
              h.invitation x,
              add-invited player a a x s,
              contains-append x p.invitees (player ∷ []),
            );
          };
          frame = record {
            others = λ b x n. unfold add_party_invitation in ground arith;
            invites = λ b x n. ground (arith, add-invited player a b x s);
          };
        })
]

pub update_shared_experience-IsParty :
    (env : Env) (s : Players) (a : ℕ) (p : Party)
    → IsParty s a p
    → IsParty s a (update_shared_experience env p)
unfolding update_shared_experience
update_shared_experience-IsParty env s a p h = record {
  membership = h.membership;
  apart = h.apart;
  distinct = h.distinct;
  invited_once = h.invited_once;
  invitation = h.invitation;
}

pub clear_player_points-IsParty :
    (env : Env) (player : ℕ) (s : Players) (a : ℕ) (p : Party)
    → IsParty s a p
    → IsParty s a (clear_player_points env player p)
unfolding clear_player_points
clear_player_points-IsParty env player s a p h = elim (Option-cases (Maps.lookup player p.ticks)) [
  | inl e ↦ rw (e, clear_player_points) h
  | inr (t, e) ↦
      rw (e, clear_player_points)
        (record {
          membership = h.membership;
          apart = h.apart;
          distinct = h.distinct;
          invited_once = h.invited_once;
          invitation = h.invitation;
        })
]

pub join_party-Keeps :
    (env : Env) (a player : ℕ) (s : Players) (p : Party)
    → s.party_of player ≡ none
    → IsParty s a p
    → Keeps a s (join_party env a player s p)
unfolding join_party set_party
join_party-Keeps env a player s p free h = elim (Bool-cases (env.on_join a player)) [
  | inr refused ↦ rw (refused, join_party) (record { fits = h; frame = Frame-refl a s })
  | inl allowed ↦ elim (Bool-cases (contains player p.invitees)) [
    | inr absent ↦ rw (allowed, absent, join_party) (record { fits = h; frame = Frame-refl a s })
    | inl there ↦
        rw (allowed, there, join_party)
          (record {
            fits = record {
              membership = λ x.
                  unfold remove_party_invitation in
                  ground (arith, h.membership x, contains-append x p.members (player ∷ []));
              apart = ground (
                arith,
                free,
                h.apart,
                h.membership player,
                contains-append p.leader p.members (player ∷ []),
              );
              distinct =
                  snoc-IsDistinct p.members player h.distinct
                    (ground (arith, free, h.membership player));
              invited_once = erase-IsDistinct player p.invitees h.invited_once;
              invitation = λ x. ground (
                arith,
                h.invitation x,
                remove-invited player a a x (set_party player (some a) s),
                contains-erase_ne player x p.invitees,
                contains-erase_self player p.invitees h.invited_once,
              );
            };
            frame = record {
              others = λ b x n. unfold remove_party_invitation in ground (arith, free);
              invites = λ b x n.
                  ground (arith, remove-invited player a b x (set_party player (some a) s));
            };
          })
  ]
]

pub pass_party_leadership-IsParty :
    (env : Env) (a player : ℕ) (s : Players) (p : Party)
    → IsParty s a p
    → IsParty s a (pass_party_leadership env a player s p).0
unfolding pass_party_leadership update_shared_experience
pass_party_leadership-IsParty env a player s p h = elim (Bool-cases (p.leader == player)) [
  | inl same ↦ rw (same, pass_party_leadership) h
  | inr other ↦ elim (Bool-cases (is_party (s.party_of player) a)) [
    | inr out ↦ rw (other, out, pass_party_leadership) h
    | inl in_it ↦
        rw (other, in_it, pass_party_leadership)
          (record {
            membership = λ x.
                ground (
                  arith,
                  h.membership x,
                  h.membership player,
                  contains-erase_ne player x p.members,
                );
            apart = ground (arith, contains-erase_self player p.members h.distinct);
            distinct = (
              contains-erase-false player p.leader p.members h.apart,
              erase-IsDistinct player p.members h.distinct,
            );
            invited_once = h.invited_once;
            invitation = h.invitation;
          })
  ]
]
