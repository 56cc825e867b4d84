-- ===== src/Chat/Examples.antt =====
-- Tests of `Chat`, and its theorems at concrete inputs.
use ot_tibia_teste.Common.{ℕ, ◌+◌, ◌≡◌, refl, List, [], ◌∷◌, none, some, true, false, contains}
use ot_tibia_teste.Common.Maps.{lookup, insert, erase}
use ot_tibia_teste.Chat.{
  Player, Users, PrivateChannel, Chat, Place, Env, has_key, users_at, get_channel, private_of,
  add_user, free_slot, create_channel, add_user_to_channel, remove_user_from_all_channels,
  talk_to_channel, invite_player, exclude_player, player_create_private_channel,
  player_channel_invite, player_channel_exclude,
}
use ot_tibia_teste.Chat.Owners.{owners}
use ot_tibia_teste.Chat.Requests.{InOrder}
use ot_tibia_teste.Chat.Run.{
  Request, open_channel, create_private, invite, exclude, step, run, start, run-InOrder,
}
use ot_tibia_teste.Chat.Leaving.{remove_user_from_all_channels_lem}

-- Every script agrees.
abbrev friendly : Env
friendly = record {
  can_join = λ k id. true;
  on_join = λ place id. true;
  on_speak = λ place id. true;
}

-- A player's id is its guid and 1000.
abbrev named : ℕ → Player
named guid = record { id = guid + 1000; guid = guid; guild = none; party = none; is_premium = true }

abbrev meeting : List (Env × Player × Request)
meeting =
    (friendly, named 1, create_private)
    ∷ (friendly, named 1, invite (some (named 2)))
    ∷ (friendly, named 2, open_channel 100)
    ∷ []

abbrev met : Chat
met = record {
  normal = (5, []) ∷ [];
  privates =
      (100, record { users = (1001, 1) ∷ (1002, 2) ∷ []; invites = (2, 1002) ∷ []; owner = 1 })
      ∷ [];
  parties = [];
  guilds = [];
}

meeting_runs : run (start ((5, []) ∷ [])) meeting ≡ met
unfolding run step start get_channel private_of add_user free_slot create_channel
    add_user_to_channel invite_player player_create_private_channel player_channel_invite lookup
    insert
meeting_runs = refl

excluded_silent :
    talk_to_channel friendly (step friendly met (named 1) (exclude (some (named 2)))) (named 2) 100
    ≡ false
unfolding talk_to_channel step get_channel private_of exclude_player player_channel_exclude lookup
    insert erase
excluded_silent = refl

run-InOrder_example : InOrder (λ guid. guid + 1000) (run (start ((5, []) ∷ [])) meeting)
run-InOrder_example =
    run-InOrder (λ guid. guid + 1000) ((5, []) ∷ []) meeting (refl, (refl, (refl, tt)))

remove_user_from_all_channels_lem_example :
    ((place : Place) (us : Users)
      → users_at place (remove_user_from_all_channels met (named 2)) ≡ some us
      → has_key 1002 us ≡ false)
    × (contains 2 (owners (remove_user_from_all_channels met (named 2)).privates) ≡ false)
    × ((k : ℕ) (ch : PrivateChannel)
        → lookup k (remove_user_from_all_channels met (named 2)).privates ≡ some ch
        → has_key 2 ch.invites ≡ false)
remove_user_from_all_channels_lem_example = remove_user_from_all_channels_lem met (named 2)
