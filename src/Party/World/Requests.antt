-- ===== src/Party/World/Requests.antt =====
-- The party handlers of src/game.cpp, one after another, from a world in order.
use ot_tibia_teste.Common.{
  ℕ, ◌≡◌, refl, List, [], ◌∷◌, some, Bool, true, not, ◌&&◌, ◌||◌, ◌==◌, arith,
}
use ot_tibia_teste.Party.{
  Party, Env, outcome, update, new_party, leave_party, join_party, revoke_invitation,
  pass_party_leadership, set_shared_experience,
}
use ot_tibia_teste.Party.Membership.{IsParty, IsParty-same, Frame-refl}
use ot_tibia_teste.Party.Operations.{Keeps, join_party-Keeps, pass_party_leadership-IsParty}
use ot_tibia_teste.Party.Disbanding.{remove_invite-Keeps}
use ot_tibia_teste.Party.Leaving.{leave_party-Keeps}
use ot_tibia_teste.Party.World.{
  World, is_partner, create, player_invite_to_party, player_join_party,
  player_revoke_party_invitation, player_pass_party_leadership, player_leave_party,
  player_enable_shared_party_experience, Request, invite, join, revoke, pass, leave, share, step,
  run, start,
}
use ot_tibia_teste.Party.World.Safety.{
  Inv, Safe, party_at, stay, if-Safe, case-Safe, at-Safe, inviting-Safe, store-Safe, invite_to-Safe,
  create-Inv, create-party,
}

module _ (env : Env) (w : World) (h : Inv w) where
  invite-Safe : (player invited : ℕ) → Safe (player_invite_to_party env w player invited)
  unfolding player_invite_to_party
  invite-Safe player invited = if-Safe (player == invited) _ _ (stay w h) (
      if-Safe (not (env.online player)) _ _ (stay w h) (
        if-Safe (not (env.online invited)) _ _ (stay w h) (
          inviting-Safe w h invited player _ λ b. if-Safe b _ _ (stay w h) (
            case-Safe (w.party_of invited) _ _
              (λ _.
                case-Safe (w.party_of player) _ _
                  (λ free.
                    invite_to-Safe (create w player) w.fresh invited (new_party player)
                      (create-Inv w player h free) (create-party w player))
                  (λ a e. at-Safe w h player a _ e λ p found.
                    if-Safe (p.leader == player) _ _ (invite_to-Safe w a invited p h found)
                      (stay w h)))
              (λ a _. stay w h)))))

  join-Safe : (player leader : ℕ) → Safe (player_join_party env w player leader)
  unfolding player_join_party
  join-Safe player leader =
      if-Safe (not (env.online player) || not (env.online leader)) _ _ (stay w h) (
        inviting-Safe w h leader player _ λ b. if-Safe (not b) _ _ (stay w h) (
          case-Safe (w.party_of leader) _ _ (λ _. stay w h)
            (λ a e. at-Safe w h leader a _ e λ p found.
              if-Safe (not (p.leader == leader)) _ _ (stay w h) (
                case-Safe (w.party_of player) _ _
                  (λ free.
                    store-Safe w a p (join_party env a player w.players p) h found
                      (join_party-Keeps env a player w.players p free (party_at w a p h found)))
                  (λ b' _. stay w h)))))

  -- A party that changed by itself, and no player.
  alone-Safe :
      (a : ℕ) (p q : Party)
      → w.parties a ≡ some p
      → IsParty w.players a q
      → Safe (some (record w { parties = update a (some q) w.parties }))
  alone-Safe a p q found fits =
      store-Safe w a p (outcome w.players (some q) true) h found
        (record { fits = fits; frame = Frame-refl a w.players })

  pass-Safe : (player new_leader : ℕ) → Safe (player_pass_party_leadership env w player new_leader)
  unfolding player_pass_party_leadership
  pass-Safe player new_leader = if-Safe (not (env.online player)) _ _ (stay w h) (
      case-Safe (w.party_of player) _ _ (λ _. stay w h)
        (λ a e. at-Safe w h player a _ e λ p found.
          if-Safe (not (p.leader == player)) _ _ (stay w h) (
            if-Safe (not (env.online new_leader) || not (is_partner w player new_leader)) _ _
              (stay w h)
              (alone-Safe a p (pass_party_leadership env a new_leader w.players p).0 found (
                pass_party_leadership-IsParty env a new_leader w.players p
                  (party_at w a p h found))))))

  set_shared_experience-IsParty :
      (player a : ℕ) (active : Bool) (p : Party)
      → IsParty w.players a p
      → IsParty w.players a (set_shared_experience env player active p).0
  unfolding set_shared_experience
  set_shared_experience-IsParty player a active p k =
      IsParty-same w.players a p (set_shared_experience env player active p).0 (ground arith)
        (ground arith) (ground arith) k

  share-Safe :
      (player : ℕ) (active : Bool)
      → Safe (player_enable_shared_party_experience env w player active)
  unfolding player_enable_shared_party_experience
  share-Safe player active = if-Safe (not (env.online player)) _ _ (stay w h) (
      case-Safe (w.party_of player) _ _ (λ _. stay w h)
        (λ a e.
          if-Safe (env.in_fight player && not (env.in_protection_zone player)) _ _ (stay w h) (
            at-Safe w h player a _ e λ p found.
              alone-Safe a p (set_shared_experience env player active p).0 found
                (set_shared_experience-IsParty player a active p (party_at w a p h found)))))

  module _ (disbands : (a : ℕ) → env.on_disband a ≡ true) where
    revoked :
        (a invited : ℕ) (p : Party)
        → IsParty w.players a p
        → Keeps a w.players (revoke_invitation env a invited w.players p)
    unfolding revoke_invitation
    revoked a invited p k = remove_invite-Keeps env a invited w.players p k (disbands a)

    revoke-Safe : (player invited : ℕ) → Safe (player_revoke_party_invitation env w player invited)
    unfolding player_revoke_party_invitation
    revoke-Safe player invited = if-Safe (not (env.online player)) _ _ (stay w h) (
        case-Safe (w.party_of player) _ _ (λ _. stay w h)
          (λ a e. at-Safe w h player a _ e λ p found.
            if-Safe (not (p.leader == player)) _ _ (stay w h) (
              if-Safe (not (env.online invited)) _ _ (stay w h) (
                inviting-Safe w h player invited _ λ b.
                  if-Safe b _ _
                    (store-Safe w a p (revoke_invitation env a invited w.players p) h found
                      (revoked a invited p (party_at w a p h found)))
                    (stay w h)))))

    leave-Safe : (player : ℕ) → Safe (player_leave_party env w player)
    unfolding player_leave_party
    leave-Safe player = if-Safe (not (env.online player)) _ _ (stay w h) (
        case-Safe (w.party_of player) _ _ (λ _. stay w h)
          (λ a e. if-Safe (env.in_fight player) _ _ (stay w h) (
            at-Safe w h player a _ e λ p found.
              store-Safe w a p (leave_party env a player w.players p) h found (
                leave_party-Keeps env a player w.players (disbands a) p (party_at w a p h found)))))

    step-Safe : (r : Request) → Safe (step env w r)
    unfolding step
    step-Safe (invite player invited) = invite-Safe player invited
    step-Safe (join player leader) = join-Safe player leader
    step-Safe (revoke player invited) = revoke-Safe player invited
    step-Safe (pass player new_leader) = pass-Safe player new_leader
    step-Safe (leave player) = leave-Safe player
    step-Safe (share player active) = share-Safe player active

-- A request of any player, in a world where parties and players agree, never reads a party that was
-- deleted, and parties and players agree after it: a player's party is the one that lists it as
-- leader or member, once, and the players invited are those that a party lists, once; a party that
-- is gone is left by all. The event on disbanding allows it.
pub step-Inv :
    (env : Env) (w : World) (r : Request)
    → ((a : ℕ) → env.on_disband a ≡ true)
    → Inv w
    → (w' : World) × (step env w r ≡ some w') × Inv w'
step-Inv env w r disbands h = step-Safe env w h disbands r

abbrev pub Disbands : List (Env × Request) → Type 0
Disbands [] = Unit
Disbands ((env, r) ∷ rs) = ((a : ℕ) → env.on_disband a ≡ true) × Disbands rs

pub start-Inv : Inv start
unfolding start
start-Inv = record {
  fits = λ a. record { nobody = λ x. refl; uninvited = λ x. refl };
  unused = λ a le. refl;
}

run_from-Inv :
    (w : World) (rs : List (Env × Request))
    → Disbands rs
    → Inv w
    → (w' : World) × (run w rs ≡ some w') × Inv w'
unfolding run
run_from-Inv w [] d h = (w, refl, h)
run_from-Inv w ((env, r) ∷ rs) (d, ds) h =
    let (w1, e, h1) = step-Inv env w r d h in rw e (run_from-Inv w1 rs ds h1)

-- Whatever the players ask for, in whatever order, no deleted party is read and parties and players
-- agree in the end, from a world without parties on. The event on disbanding always allows it.
pub run-Inv :
    (rs : List (Env × Request)) → Disbands rs → (w : World) × (run start rs ≡ some w) × Inv w
run-Inv rs d = run_from-Inv start rs d start-Inv
