-- ===== src/Party.antt =====
-- src/party.h and src/party.cpp, with the party fields of src/player.cpp: parties of players.
-- Players and parties are numbers, for the pointers of the code. An operation takes the address of
-- its party (`this`), what the players hold and the party itself, and gives back what they are then:
-- `none` for a party that deleted itself. Messages and icons change no state and are left out.
pub mod Membership
pub mod Operations
pub mod Disbanding
pub mod Leaving
pub mod Veto
pub mod World
mod Examples
use ot_tibia_teste.Common.{
  ℕ, zero, suc, ◌+◌, ◌-◌, ◌*◌, ◌/◌, ◌%◌, ◌^◌, List, [], ◌∷◌, ◌++◌, Option, none, some, Bool, true,
  false, not, ◌&&◌, ◌||◌, ltb, leb, ◌==◌, if◌then◌else◌, contains, erase,
}
use ot_tibia_teste.Common.Maps
use ot_tibia_teste.Common.Words.{u64}
use ot_tibia_teste.Geometry.Position.{Position, are_in_range_floor}

pub record Party : Type 0 where
  pub leader : ℕ
  pub members : List ℕ
  pub invitees : List ℕ
  pub ticks : List (ℕ × ℕ)
  pub shared_exp_active : Bool
  pub shared_exp_enabled : Bool

-- `Player::party` and `Player::invitePartyList`.
pub record Players : Type 0 where
  pub party_of : ℕ → Option ℕ
  pub invited : ℕ → List ℕ

-- What the operations read of other parts: the answers of the Lua events (`g_events`), which are
-- taken to change no party, the players' levels, places and flags, the clock and the configuration.
pub record Env : Type 0 where
  pub on_disband : ℕ → Bool
  pub on_leave : ℕ → ℕ → Bool
  pub on_join : ℕ → ℕ → Bool
  pub level : ℕ → ℕ
  pub place : ℕ → Position
  pub not_gain_in_fight : ℕ → Bool
  pub now : ℕ
  pub pz_locked : ℕ
  pub online : ℕ → Bool
  pub in_fight : ℕ → Bool
  pub in_protection_zone : ℕ → Bool

pub record Outcome : Type 0 where
  pub players : Players
  pub party : Option Party
  pub result : Bool

abbrev pub outcome : Players → Option Party → Bool → Outcome
outcome s p r = record { players = s; party = p; result = r }

abbrev pub update {ℓ} : {A : Type ℓ} → ℕ → A → (ℕ → A) → ℕ → A
update i a f j = if i == j then a else f j

abbrev pub is_party : Option ℕ → ℕ → Bool
is_party none a = false
is_party (some b) a = b == a

pub set_party : ℕ → Option ℕ → Players → Players
set_party p o s = record s { party_of = update p o s.party_of }

-- `std::forward_list::remove`: every element that equals `a`.
pub remove_all : ℕ → List ℕ → List ℕ
remove_all a [] = []
remove_all a (x ∷ xs) = let rest = remove_all a xs in if x == a then rest else x ∷ rest

pub add_party_invitation : ℕ → ℕ → Players → Players
add_party_invitation p a s =
    if contains a (s.invited p)
    then s
    else record s { invited = update p (a ∷ s.invited p) s.invited }

pub remove_party_invitation : ℕ → ℕ → Players → Players
unfolding remove_all
remove_party_invitation p a s = record s {
  invited = update p (remove_all a (s.invited p)) s.invited;
}

-- The constructor.
pub new_party : ℕ → Party
new_party leader = record {
  leader = leader;
  members = [];
  invitees = [];
  ticks = [];
  shared_exp_active = false;
  shared_exp_enabled = false;
}

abbrev pub is_nil : List ℕ → Bool
is_nil [] = true
is_nil (x ∷ xs) = false

-- `Party::empty`
abbrev pub is_empty : Party → Bool
is_empty p = is_nil p.members && is_nil p.invitees

pub highest_level : (ℕ → ℕ) → ℕ → List ℕ → ℕ
highest_level level best [] = best
highest_level level best (m ∷ ms) =
    highest_level level (if ltb best (level m) then level m else best) ms

-- The check of the last fight, for a player who gains in fights.
pub is_active : Env → Party → ℕ → Bool
is_active env p player = elim (Maps.lookup player p.ticks) [
  | none ↦ false
  | some t ↦ not (ltb env.pz_locked (u64 (env.now + 2 ^ 64 - t)))
]

-- `ceil(float(highest) * 2 / 3)`, which is exact for the levels below 2 ^ 21.
pub min_level : ℕ → ℕ
min_level highest = (highest * 2 + 2) / 3

pub can_use_shared_experience : Env → Party → ℕ → Bool
unfolding is_active min_level
can_use_shared_experience env p player =
    if is_nil p.members
    then false
    else if ltb (env.level player)
        (min_level (highest_level env.level (env.level p.leader) p.members))
    then false
    else if not (are_in_range_floor 30 30 1 (env.place p.leader) (env.place player))
    then false
    else if env.not_gain_in_fight player
    then true
    else is_active env p player

pub all_can_use : Env → Party → List ℕ → Bool
all_can_use env p [] = true
all_can_use env p (m ∷ ms) =
    let rest = all_can_use env p ms in if can_use_shared_experience env p m then rest else false

pub can_enable_shared_experience : Env → Party → Bool
can_enable_shared_experience env p =
    if can_use_shared_experience env p p.leader then all_can_use env p p.members else false

pub update_shared_experience : Env → Party → Party
update_shared_experience env p = record p {
  shared_exp_enabled =
      if p.shared_exp_active then can_enable_shared_experience env p else p.shared_exp_enabled;
}

pub clear_player_points : Env → ℕ → Party → Party
unfolding update_shared_experience
clear_player_points env player p = elim (Maps.lookup player p.ticks) [
  | none ↦ p
  | some t ↦ update_shared_experience env (record p { ticks = Maps.erase player p.ticks })
]

pub update_player_ticks : Env → ℕ → ℕ → Party → Party
unfolding update_shared_experience
update_player_ticks env player points p =
    if not (points == 0) && not (env.not_gain_in_fight player)
    then update_shared_experience env (record p { ticks = Maps.insert player env.now p.ticks })
    else p

pub set_shared_experience : Env → ℕ → Bool → Party → Party × Bool
set_shared_experience env player active p =
    if not (p.leader == player)
    then (p, false)
    else if (if active then p.shared_exp_active else not p.shared_exp_active)
    then (p, true)
    else if active
    then (let p' = record p { shared_exp_active = true } in
        (record p' { shared_exp_enabled = can_enable_shared_experience env p' }, true))
    else (record p { shared_exp_active = false }, true)

-- The two loops of `disband`.
pub withdraw : ℕ → List ℕ → Players → Players
unfolding remove_party_invitation
withdraw a [] s = s
withdraw a (i ∷ is) s = withdraw a is (remove_party_invitation i a s)

pub release : List ℕ → Players → Players
unfolding set_party
release [] s = s
release (m ∷ ms) s = release ms (set_party m none s)

pub disband : Env → ℕ → Players → Party → Players × Option Party
unfolding set_party withdraw release
disband env a s p =
    if not (env.on_disband a)
    then (s, some p)
    else (release p.members (withdraw a p.invitees (set_party p.leader none s)), none)

pub pass_party_leadership : Env → ℕ → ℕ → Players → Party → Party × Bool
unfolding update_shared_experience
pass_party_leadership env a player s p =
    if (p.leader == player) || not (is_party (s.party_of player) a) then (p, false) else (
      update_shared_experience env
          (record p { leader = player; members = p.leader ∷ erase player p.members }),
      true,
    )

-- The choice of a new leader in `leaveParty`, and `missingLeader`.
pub replace_leader : Env → ℕ → ℕ → Players → Party → List ℕ → Party × Bool
replace_leader env a player s p [] = (p, p.leader == player)
replace_leader env a player s p (m ∷ ms) =
    if not (p.leader == player)
    then (p, false)
    else if is_nil ms && is_nil p.invitees
    then (p, true)
    else ((pass_party_leadership env a m s p).0, false)

-- The rest of `leaveParty`.
pub take_out : Env → ℕ → ℕ → Players → Party × Bool → Players × Option Party
unfolding set_party update_shared_experience clear_player_points
take_out env a player s (p, missing) =
    let p' =
      clear_player_points env player
        (update_shared_experience env (record p { members = erase player p.members })) in
    let s' = set_party player none s in
    if missing || is_empty p' then disband env a s' p' else (s', some p')

abbrev pub done : Players × Option Party → Outcome
done (s, p) = outcome s p true

pub leave_party : Env → ℕ → ℕ → Players → Party → Outcome
unfolding replace_leader take_out
leave_party env a player s p =
    if not (is_party (s.party_of player) a) && not (p.leader == player)
    then outcome s (some p) false
    else if not (env.on_leave a player)
    then outcome s (some p) false
    else done (take_out env a player s (replace_leader env a player s p p.members))

pub join_party : Env → ℕ → ℕ → Players → Party → Outcome
unfolding set_party remove_party_invitation update_shared_experience
join_party env a player s p =
    if not (env.on_join a player)
    then outcome s (some p) false
    else if not (contains player p.invitees)
    then outcome s (some p) false
    else outcome (remove_party_invitation player a (set_party player (some a) s))
        (some (
          update_shared_experience env
            (record p { invitees = erase player p.invitees; members = p.members ++ player ∷ [] })))
        true

pub remove_invite : Env → ℕ → ℕ → Bool → Players → Party → Outcome
unfolding remove_party_invitation
remove_invite env a player from_player s p =
    if not (contains player p.invitees)
    then outcome s (some p) false
    else let p' = record p { invitees = erase player p.invitees } in
      let s' = if from_player then remove_party_invitation player a s else s in
      if is_empty p' then done (disband env a s' p') else outcome s' (some p') true

pub revoke_invitation : Env → ℕ → ℕ → Players → Party → Outcome
revoke_invitation env a player s p = remove_invite env a player true s p

pub invite_player : ℕ → ℕ → Players → Party → Outcome
unfolding add_party_invitation
invite_player a player s p =
    if contains player p.invitees
    then outcome s (some p) false
    else outcome (add_party_invitation player a s)
        (some (record p { invitees = p.invitees ++ player ∷ [] })) true
