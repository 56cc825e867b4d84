-- ===== src/Party/Veto.antt =====
-- src/party.cpp: what becomes of a party whose disbanding the event refuses.
use ot_tibia_teste.Common.{
  ℕ, ◌≡◌, refl, ap, ◌∙◌, inl, inr, [], none, some, true, false, ◌==◌, arith, Bool-cases, erase,
}
use ot_tibia_teste.Party.{
  Party, Players, Env, outcome, is_party, set_party, disband, done, update_shared_experience,
  clear_player_points, replace_leader, take_out, leave_party,
}

clear_player_points-leader :
    (env : Env) (player : ℕ) (p : Party)
    → (clear_player_points env player (update_shared_experience env p)).leader ≡ p.leader
unfolding clear_player_points update_shared_experience
clear_player_points-leader env player p = ground arith

clear_player_points-members :
    (env : Env) (player : ℕ) (p : Party)
    → (clear_player_points env player (update_shared_experience env p)).members ≡ p.members
unfolding clear_player_points update_shared_experience
clear_player_points-members env player p = ground arith

disband-vetoed :
    (env : Env) (a : ℕ) (s : Players) (p : Party)
    → env.on_disband a ≡ false
    → disband env a s p ≡ (s, some p)
unfolding disband
disband-vetoed env a s p veto = rw (veto, disband) refl

last-replaced :
    (env : Env) (a player : ℕ) (s : Players) (p : Party)
    → p.members ≡ []
    → (p.leader == player) ≡ true
    → replace_leader env a player s p p.members ≡ (p, true)
unfolding replace_leader
last-replaced env a player s p m l = rw (m, l) refl

leave_party-last :
    (env : Env) (a player : ℕ) (s : Players) (p : Party)
    → env.on_leave a player ≡ true
    → p.members ≡ []
    → (p.leader == player) ≡ true
    → leave_party env a player s p ≡ done (take_out env a player s (p, true))
unfolding leave_party
leave_party-last env a player s p allowed m l = elim (Bool-cases (is_party (s.party_of player) a)) [
  | inl e ↦ rw (e, allowed, leave_party) (rw (last-replaced env a player s p m l) refl)
  | inr e ↦ rw (e, l, allowed, leave_party) (rw (last-replaced env a player s p m l) refl)
]

-- When a leader leaves a party without members and the event refuses to disband it, the party goes
-- on with a leader whose own pointer to a party is null.
pub leave_party-vetoed :
    (env : Env) (a player : ℕ) (s : Players) (p : Party)
    → env.on_disband a ≡ false
    → env.on_leave a player ≡ true
    → p.members ≡ []
    → p.leader ≡ player
    → (q : Party) × (leave_party env a player s p ≡ outcome (set_party player none s) (some q) true)
      × (q.leader ≡ player)
      × (q.members ≡ [])
      × ((set_party player none s).party_of q.leader ≡ none)
unfolding take_out
leave_party-vetoed env a player s p veto allowed m l =
    let r : Party = record p { members = erase player p.members } in
    let q : Party = clear_player_points env player (update_shared_experience env r) in
    let leads = clear_player_points-leader env player r ∙ l in
    (
      q,
      leave_party-last env a player s p allowed m (ground arith)
          ∙ ap done (disband-vetoed env a (set_party player none s) q veto),
      leads,
      clear_player_points-members env player r ∙ rw m refl,
      rw leads (unfold set_party in ground arith),
    )
