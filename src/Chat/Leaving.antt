-- ===== src/Chat/Leaving.antt =====
-- src/chat.cpp: `removeUserFromAllChannels` leaves nothing of a player.
use ot_tibia_teste.Common.{
  ℕ, ◌≡◌, refl, List, [], ◌∷◌, some, false, arith, Option-cases, inl, inr, contains, All,
}
use ot_tibia_teste.Common.Maps.{lookup, erase, lookup-erase}
use ot_tibia_teste.Chat.{
  Player, Users, PrivateChannel, Chat, Place, normal_at, private_at, party_at, guild_at, has_key,
  users_at, leave_all, leave_privates, remove_user_from_all_channels,
}
use ot_tibia_teste.Chat.Owners.{owners, lookup-All}

-- The id uses none of the channels.
abbrev IsAway : ℕ → ℕ × Users → Type 0
IsAway id e = has_key id e.1 ≡ false

erased : {V : Type 0} (key : ℕ) (m : List (ℕ × V)) → has_key key (erase key m) ≡ false
erased key m = ground (arith, lookup-erase key key m)

leave_all-IsAway : (id : ℕ) (m : List (ℕ × Users)) → All (IsAway id) (leave_all id m)
unfolding leave_all
leave_all-IsAway id [] = tt
leave_all-IsAway id ((k, us) ∷ rest) = (erased id us, leave_all-IsAway id rest)

-- Nor does the guid belong to a private one.
abbrev IsOut : ℕ → ℕ → ℕ × PrivateChannel → Type 0
IsOut id guid e = (has_key id e.1.users ≡ false) × (has_key guid e.1.invites ≡ false)

leave_privates-IsOut :
    (id guid : ℕ) (m : List (ℕ × PrivateChannel)) → All (IsOut id guid) (leave_privates id guid m)
unfolding leave_privates
leave_privates-IsOut id guid [] = tt
leave_privates-IsOut id guid ((k, ch) ∷ rest) =
    ground (arith, erased id ch.users, erased guid ch.invites, leave_privates-IsOut id guid rest)

owners-leave_privates :
    (id guid : ℕ) (m : List (ℕ × PrivateChannel))
    → contains guid (owners (leave_privates id guid m)) ≡ false
unfolding leave_privates
owners-leave_privates id guid [] = refl
owners-leave_privates id guid ((k, ch) ∷ rest) = ground (arith, owners-leave_privates id guid rest)

away_at :
    (c : Chat) (p : Player) (place : Place) (us : Users)
    → users_at place (remove_user_from_all_channels c p) ≡ some us
    → has_key p.id us ≡ false
unfolding users_at remove_user_from_all_channels
away_at c p (normal_at k) us e =
    lookup-All (IsAway p.id) k us (leave_all p.id c.normal) e (leave_all-IsAway p.id c.normal)
away_at c p (party_at k) us e =
    lookup-All (IsAway p.id) k us (leave_all p.id c.parties) e (leave_all-IsAway p.id c.parties)
away_at c p (guild_at k) us e =
    lookup-All (IsAway p.id) k us (leave_all p.id c.guilds) e (leave_all-IsAway p.id c.guilds)
away_at c p (private_at k) us e =
    elim (Option-cases (lookup k (leave_privates p.id p.guid c.privates))) [
      | inl gone ↦ absurd (ground arith)
      | inr (ch, found) ↦
          let out =
            lookup-All (IsOut p.id p.guid) k ch (leave_privates p.id p.guid c.privates) found
              (leave_privates-IsOut p.id p.guid c.privates) in
          ground arith
    ]

-- A player who leaves all channels uses none of any kind, owns none, and is invited to none.
pub remove_user_from_all_channels_lem :
    (c : Chat) (p : Player)
    → ((place : Place) (us : Users)
        → users_at place (remove_user_from_all_channels c p) ≡ some us
        → has_key p.id us ≡ false)
      × (contains p.guid (owners (remove_user_from_all_channels c p).privates) ≡ false)
      × ((k : ℕ) (ch : PrivateChannel)
          → lookup k (remove_user_from_all_channels c p).privates ≡ some ch
          → has_key p.guid ch.invites ≡ false)
unfolding remove_user_from_all_channels
remove_user_from_all_channels_lem c p = (
  away_at c p,
  owners-leave_privates p.id p.guid c.privates,
  λ k ch e.
      (lookup-All (IsOut p.id p.guid) k ch (leave_privates p.id p.guid c.privates) e
        (leave_privates-IsOut p.id p.guid c.privates)).1,
)
