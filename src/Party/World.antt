-- ===== src/Party/World.antt =====
-- The party handlers of src/game.cpp, over all parties. `fresh` is the address that `new Party` gives.
-- A handler gives `none` where the code would read a party that has been deleted.
pub mod Safety
pub mod Requests
use ot_tibia_teste.Common.{
  ℕ, suc, Option, none, some, Bool, true, false, not, ◌&&◌, ◌||◌, ◌==◌, if◌then◌else◌, contains,
  ◌>>=◌, List, [], ◌∷◌,
}
use ot_tibia_teste.Party.{
  Party, Players, Env, Outcome, update, is_party, set_party, new_party, leave_party, join_party,
  remove_invite, revoke_invitation, invite_player, pass_party_leadership, set_shared_experience,
}

pub record World : Type 0 where
  pub players : Players
  pub open players use *
  pub parties : ℕ → Option Party
  pub fresh : ℕ

-- What a method leaves behind.
abbrev pub store : World → ℕ → Outcome → World
store w a o = record w { players = o.players; parties = update a o.party w.parties }

-- A call of a method through a pointer to a party.
abbrev pub at {ℓ} : {A : Type ℓ} → World → ℕ → (Party → Option A) → Option A
at w a f = w.parties a >>= f

-- `Player::isInviting`
pub is_inviting : World → ℕ → ℕ → Option Bool
is_inviting w player other = elim (w.party_of player) [
  | none ↦ some false
  | some a ↦
      at w a λ p. some (if not (p.leader == player) then false else contains other p.invitees)
]

-- `Player::isPartner`
pub is_partner : World → ℕ → ℕ → Bool
is_partner w player other = elim (w.party_of player) [
  | none ↦ false
  | some a ↦ (if other == player then false else is_party (w.party_of other) a)
]

-- `new Party(player)`
pub create : World → ℕ → World
unfolding set_party new_party
create w player = record {
  players = set_party player (some w.fresh) w.players;
  parties = update w.fresh (some (new_party player)) w.parties;
  fresh = suc w.fresh;
}

pub invite_to : World → ℕ → ℕ → Option World
invite_to w a invited = at w a λ p. some (store w a (invite_player a invited w.players p))

pub player_invite_to_party : Env → World → ℕ → ℕ → Option World
unfolding create invite_to
player_invite_to_party env w player invited =
    if player == invited
    then some w
    else if not (env.online player)
    then some w
    else if not (env.online invited)
    then some w
    else is_inviting w invited player >>= λ inviting.
        if inviting then some w else elim (w.party_of invited) [
          | some b ↦ some w
          | none ↦ elim (w.party_of player) [
            | none ↦ invite_to (create w player) w.fresh invited
            | some a ↦ at w a λ p. if p.leader == player then invite_to w a invited else some w
          ]
        ]

pub player_join_party : Env → World → ℕ → ℕ → Option World
player_join_party env w player leader =
    if not (env.online player) || not (env.online leader)
    then some w
    else is_inviting w leader player >>= λ inviting.
        if not inviting then some w else elim (w.party_of leader) [
          | none ↦ some w
          | some a ↦ at w a λ p.
              if not (p.leader == leader) then some w else elim (w.party_of player) [
                | some b ↦ some w
                | none ↦ some (store w a (join_party env a player w.players p))
              ]
        ]

pub player_revoke_party_invitation : Env → World → ℕ → ℕ → Option World
player_revoke_party_invitation env w player invited =
    if not (env.online player) then some w else elim (w.party_of player) [
      | none ↦ some w
      | some a ↦ at w a λ p.
          if not (p.leader == player)
          then some w
          else if not (env.online invited)
          then some w
          else is_inviting w player invited >>= λ inviting.
              if inviting
              then some (store w a (revoke_invitation env a invited w.players p))
              else some w
    ]

pub player_pass_party_leadership : Env → World → ℕ → ℕ → Option World
player_pass_party_leadership env w player new_leader =
    if not (env.online player) then some w else elim (w.party_of player) [
      | none ↦ some w
      | some a ↦ at w a λ p.
          if not (p.leader == player)
          then some w
          else if not (env.online new_leader) || not (is_partner w player new_leader)
          then some w
          else some (record w {
            parties =
                update a (some (pass_party_leadership env a new_leader w.players p).0) w.parties;
          })
    ]

pub player_leave_party : Env → World → ℕ → Option World
player_leave_party env w player =
    if not (env.online player) then some w else elim (w.party_of player) [
      | none ↦ some w
      | some a ↦
          (if env.in_fight player
            then some w
            else at w a λ p. some (store w a (leave_party env a player w.players p)))
    ]

pub player_enable_shared_party_experience : Env → World → ℕ → Bool → Option World
player_enable_shared_party_experience env w player active =
    if not (env.online player) then some w else elim (w.party_of player) [
      | none ↦ some w
      | some a ↦
          (if env.in_fight player && not (env.in_protection_zone player)
            then some w
            else at w a λ p. some (record w {
              parties = update a (some (set_shared_experience env player active p).0) w.parties;
            }))
    ]

-- What a player asks for.
pub data Request : Type 0 where
  invite : (player invited : ℕ) → Request
  join : (player leader : ℕ) → Request
  revoke : (player invited : ℕ) → Request
  pass : (player new_leader : ℕ) → Request
  leave : (player : ℕ) → Request
  share : (player : ℕ) (active : Bool) → Request

pub step : Env → World → Request → Option World
step env w (invite player invited) = player_invite_to_party env w player invited
step env w (join player leader) = player_join_party env w player leader
step env w (revoke player invited) = player_revoke_party_invitation env w player invited
step env w (pass player new_leader) = player_pass_party_leadership env w player new_leader
step env w (leave player) = player_leave_party env w player
step env w (share player active) = player_enable_shared_party_experience env w player active

-- A history, with what each request found around it.
pub run : World → List (Env × Request) → Option World
run w [] = some w
run w ((env, r) ∷ rs) = step env w r >>= λ w'. run w' rs

-- No party yet.
pub start : World
start = record {
  players = record { party_of = λ x. none; invited = λ x. [] };
  parties = λ a. none;
  fresh = 0;
}
