-- ===== src/Chat.antt =====
-- src/chat.h, src/chat.cpp and the channel handlers of src/game.cpp: channels, who is in them, and
-- who is invited. A `Player` here is what the chat reads of one; a pointer to a channel is its place
-- in the maps. Scripts are answers of the environment; messages are left out, and so are `Chat::load`
-- and `getChannelList`, which read files and build a list for the client.
pub mod Owners
pub mod Membership
pub mod Requests
pub mod Run
pub mod Leaving
mod Examples
use ot_tibia_teste.Common.{
  ℕ, zero, suc, List, [], ◌∷◌, Option, none, some, Bool, true, false, not, ◌&&◌, ltb, leb, ◌==◌,
  if◌then◌else◌,
}
use ot_tibia_teste.Common.Maps.{lookup, insert, erase}

pub record Player : Type 0 where
  pub id : ℕ
  pub guid : ℕ
  pub guild : Option ℕ
  pub party : Option ℕ
  pub is_premium : Bool

-- `UsersMap` and `InvitedMap`: the guids of users by id, and the ids of the invited by guid.
abbrev pub Users : Type 0
Users = List (ℕ × ℕ)

pub record PrivateChannel : Type 0 where
  pub users : Users
  pub invites : List (ℕ × ℕ)
  pub owner : ℕ

pub record Chat : Type 0 where
  pub normal : List (ℕ × Users)
  pub privates : List (ℕ × PrivateChannel)
  pub parties : List (ℕ × Users)
  pub guilds : List (ℕ × Users)

-- Where a channel is.
pub data Place : Type 0 where
  normal_at private_at party_at guild_at : ℕ → Place

-- The answers of the scripts: who may join, who does, and who may speak.
pub record Env : Type 0 where
  pub can_join : ℕ → ℕ → Bool
  pub on_join : Place → ℕ → Bool
  pub on_speak : Place → ℕ → Bool

abbrev pub channel_guild : ℕ
channel_guild = 0

abbrev pub channel_party : ℕ
channel_party = 1

abbrev pub channel_private : ℕ
channel_private = 0xFFFF

abbrev pub has_key {ℓ} : {V : Type ℓ} → ℕ → List (ℕ × V) → Bool
has_key key m = elim (lookup key m) [ none ↦ false | some v ↦ true ]

-- `PrivateChatChannel::isInvited`
abbrev pub is_invited : ℕ → PrivateChannel → Bool
is_invited guid c = if guid == c.owner then true else has_key guid c.invites

pub users_at : Place → Chat → Option Users
users_at (normal_at k) c = lookup k c.normal
users_at (private_at k) c = elim (lookup k c.privates) [ none ↦ none | some ch ↦ some ch.users ]
users_at (party_at k) c = lookup k c.parties
users_at (guild_at k) c = lookup k c.guilds

pub set_users : Place → Users → Chat → Chat
set_users (normal_at k) us c = record c { normal = insert k us c.normal }
set_users (private_at k) us c = elim (lookup k c.privates) [
  | none ↦ c
  | some ch ↦ record c { privates = insert k (record ch { users = us }) c.privates }
]
set_users (party_at k) us c = record c { parties = insert k us c.parties }
set_users (guild_at k) us c = record c { guilds = insert k us c.guilds }

pub found_place : {V : Type 0} → (ℕ → Place) → ℕ → List (ℕ × V) → Option Place
found_place place k m = if has_key k m then some (place k) else none

unfoldable pub get_channel : Env → Chat → Player → ℕ → Option Place
unfolding found_place
get_channel env c p channel_id =
    if channel_id == channel_guild
    then elim p.guild [ none ↦ none | some g ↦ found_place guild_at g c.guilds ]
    else if channel_id == channel_party
    then elim p.party [ none ↦ none | some a ↦ found_place party_at a c.parties ]
    else if has_key channel_id c.normal
    then (if env.can_join channel_id p.id then some (normal_at channel_id) else none)
    else elim (lookup channel_id c.privates) [
      | none ↦ none
      | some ch ↦ if is_invited p.guid ch then some (private_at channel_id) else none
    ]

-- `getPrivateChannel`: the first that the player owns, here by age and in the source by id, which is the
-- same while no two channels have one owner.
unfoldable pub private_of : ℕ → List (ℕ × PrivateChannel) → Option ℕ
private_of guid [] = none
private_of guid ((k, ch) ∷ rest) =
    let later = private_of guid rest in if ch.owner == guid then some k else later

-- `ChatChannel::addUser`
unfoldable pub add_user : Env → Place → Player → Chat → Chat × Bool
unfolding users_at set_users
add_user env place p c = elim (users_at place c) [
  | none ↦ (c, false)
  | some us ↦
      if has_key p.id us
      then (c, false)
      else if not (env.on_join place p.id)
      then (c, false)
      else (set_users place (insert p.id p.guid us) c, true)
]

-- `ChatChannel::removeUser`
unfoldable pub remove_user : Place → Player → Chat → Chat × Bool
unfolding users_at set_users
remove_user place p c = elim (users_at place c) [
  | none ↦ (c, false)
  | some us ↦ if has_key p.id us then (set_users place (erase p.id us) c, true) else (c, false)
]

-- The first id from `i` on, of `n` ids, that no private channel has.
unfoldable pub free_slot : ℕ → ℕ → List (ℕ × PrivateChannel) → Option ℕ
free_slot zero i m = none
free_slot (suc n) i m = elim (has_key i m) [ false ↦ some i | true ↦ free_slot n (suc i) m ]

abbrev pub emplace {ℓ} : {V : Type ℓ} → ℕ → V → List (ℕ × V) → List (ℕ × V)
emplace k v m = if has_key k m then m else insert k v m

-- `createChannel`: the chat after it, and the place of the channel.
unfoldable pub create_channel : Env → Chat → Player → ℕ → Chat × Option Place
create_channel env c p channel_id = elim (get_channel env c p channel_id) [
  | some place ↦ (c, none)
  | none ↦
      if channel_id == channel_guild
      then elim p.guild [
        | none ↦ (c, none)
        | some g ↦ (record c { guilds = emplace g [] c.guilds }, some (guild_at g))
      ]
      else if channel_id == channel_party
      then elim p.party [
        | none ↦ (c, none)
        | some a ↦ (record c { parties = emplace a [] c.parties }, some (party_at a))
      ]
      else if channel_id == channel_private
      then (if not p.is_premium then (c, none) else elim (private_of p.guid c.privates) [
        | some k ↦ (c, none)
        | none ↦ elim (free_slot 9900 100 c.privates) [
          | none ↦ (c, none)
          | some k ↦
              let ch : PrivateChannel = record { users = []; invites = []; owner = p.guid } in
              (record c { privates = insert k ch c.privates }, some (private_at k))
        ]
      ])
      else (c, none)
]

unfoldable pub delete_channel : Chat → Player → ℕ → Chat × Bool
delete_channel c p channel_id =
    if channel_id == channel_guild
    then elim p.guild [
      | none ↦ (c, false)
      | some g ↦ (record c { guilds = erase g c.guilds }, has_key g c.guilds)
    ]
    else if channel_id == channel_party
    then elim p.party [
      | none ↦ (c, false)
      | some a ↦ (record c { parties = erase a c.parties }, has_key a c.parties)
    ]
    else (record c { privates = erase channel_id c.privates }, has_key channel_id c.privates)

unfoldable pub add_user_to_channel : Env → Chat → Player → ℕ → Chat × Option Place
add_user_to_channel env c p channel_id = elim (get_channel env c p channel_id) [
  | none ↦ (c, none)
  | some place ↦
      let (c', added) = add_user env place p c in (c', if added then some place else none)
]

-- `getOwner`: 0 but for private channels.
pub owner_at : Place → Chat → ℕ
owner_at (private_at k) c = elim (lookup k c.privates) [ none ↦ 0 | some ch ↦ ch.owner ]
owner_at (normal_at k) c = 0
owner_at (party_at k) c = 0
owner_at (guild_at k) c = 0

unfoldable pub remove_user_from_channel : Env → Chat → Player → ℕ → Chat × Bool
unfolding owner_at
remove_user_from_channel env c p channel_id = elim (get_channel env c p channel_id) [
  | none ↦ (c, false)
  | some place ↦
      let (c', removed) = remove_user place p c in
      if not removed
      then (c', false)
      else ((if owner_at place c' == p.guid then (delete_channel c' p channel_id).0 else c'), true)
]

-- The two kinds of loop of `removeUserFromAllChannels`.
unfoldable pub leave_all : ℕ → List (ℕ × Users) → List (ℕ × Users)
leave_all id [] = []
leave_all id ((k, us) ∷ rest) = (k, erase id us) ∷ leave_all id rest

unfoldable pub leave_privates : ℕ → ℕ → List (ℕ × PrivateChannel) → List (ℕ × PrivateChannel)
leave_privates id guid [] = []
leave_privates id guid ((k, ch) ∷ rest) =
    let later = leave_privates id guid rest in
    if ch.owner == guid
    then later
    else (k, record ch { users = erase id ch.users; invites = erase guid ch.invites }) ∷ later

unfoldable pub remove_user_from_all_channels : Chat → Player → Chat
unfolding leave_all leave_privates
remove_user_from_all_channels c p = record {
  normal = leave_all p.id c.normal;
  privates = leave_privates p.id p.guid c.privates;
  parties = leave_all p.id c.parties;
  guilds = leave_all p.id c.guilds;
}

-- `talkToChannel`: whether the text was sent. The type of speech is left out.
unfoldable pub talk_to_channel : Env → Chat → Player → ℕ → Bool
unfolding users_at
talk_to_channel env c p channel_id = elim (get_channel env c p channel_id) [
  | none ↦ false
  | some place ↦
      env.on_speak place p.id
      && (elim (users_at place c) [ none ↦ false | some us ↦ has_key p.id us ])
]

-- `PrivateChatChannel::invitePlayer` and `excludePlayer`, at the channel with this id.
unfoldable pub invite_player : ℕ → Player → Chat → Chat
invite_player k invited c = elim (lookup k c.privates) [
  | none ↦ c
  | some ch ↦ record c {
    privates =
        insert k (record ch { invites = emplace invited.guid invited.id ch.invites }) c.privates;
  }
]

unfoldable pub exclude_player : ℕ → Player → Chat → Chat
exclude_player k excluded c = elim (lookup k c.privates) [
  | none ↦ c
  | some ch ↦
      if has_key excluded.guid ch.invites
      then record c {
        privates =
            insert k
              (record ch {
                invites = erase excluded.guid ch.invites;
                users = erase excluded.id ch.users;
              })
              c.privates;
      }
      else c
]

-- The handlers of the game; `invited` and `excluded` are the players of the name, if online.
unfoldable pub player_create_private_channel : Env → Chat → Player → Chat
player_create_private_channel env c p =
    if not p.is_premium
    then c
    else let (c', made) = create_channel env c p channel_private in
      elim made [ none ↦ c' | some place ↦ (add_user env place p c').0 ]

unfoldable pub player_channel_invite : Chat → Player → Option Player → Chat
player_channel_invite c p invited = elim (private_of p.guid c.privates) [
  | none ↦ c
  | some k ↦ elim invited [ none ↦ c | some q ↦ if p.id == q.id then c else invite_player k q c ]
]

unfoldable pub player_channel_exclude : Chat → Player → Option Player → Chat
player_channel_exclude c p excluded = elim (private_of p.guid c.privates) [
  | none ↦ c
  | some k ↦ elim excluded [ none ↦ c | some q ↦ if p.id == q.id then c else exclude_player k q c ]
]
