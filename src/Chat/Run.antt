-- ===== src/Chat/Run.antt =====
-- src/chat.cpp and src/game.cpp: the requests of players to the chat, one after another.
use ot_tibia_teste.Common.{ℕ, List, [], ◌∷◌, Option, none, some, arith, Option-cases, inl, inr}
use ot_tibia_teste.Chat.{
  Player, Users, Chat, Env, add_user_to_channel, remove_user_from_channel,
  remove_user_from_all_channels, player_create_private_channel, player_channel_invite,
  player_channel_exclude, private_of,
}
use ot_tibia_teste.Chat.Membership.{leave_privates-IsPrivates}
use ot_tibia_teste.Chat.Requests.{
  InOrder, IsKnown, open-InOrder, close-InOrder, make-InOrder, invite-InOrder, exclude-InOrder,
}

-- `invited` and `excluded` are the online player of the name that was given, if there is one.
pub data Request : Type 0 where
  open_channel close_channel : ℕ → Request
  create_private log_out : Request
  invite exclude : Option Player → Request

unfoldable pub step : Env → Chat → Player → Request → Chat
unfolding remove_user_from_all_channels
step env c p (open_channel k) = (add_user_to_channel env c p k).0
step env c p (close_channel k) = (remove_user_from_channel env c p k).0
step env c p create_private = player_create_private_channel env c p
step env c p log_out = remove_user_from_all_channels c p
step env c p (invite q) = player_channel_invite c p q
step env c p (exclude q) = player_channel_exclude c p q

unfoldable pub run : Chat → List (Env × Player × Request) → Chat
unfolding step
run c [] = c
run c ((env, p, r) ∷ rs) = run (step env c p r) rs

-- The normal channels that the files name, without users, and no others.
unfoldable pub start : List (ℕ × Users) → Chat
start normal = record { normal = normal; privates = []; parties = []; guilds = [] }

module _ (id_of : ℕ → ℕ) where
  -- The players of a request are known.
  abbrev pub IsRequest : Player → Request → Type 0
  IsRequest p (exclude (some q)) = IsKnown id_of p × IsKnown id_of q
  IsRequest p r = IsKnown id_of p

  step-InOrder :
      (env : Env) (c : Chat) (p : Player) (r : Request)
      → IsRequest p r
      → InOrder id_of c
      → InOrder id_of (step env c p r)
  unfolding step player_channel_invite player_channel_exclude
  step-InOrder env c p (open_channel k) known h = open-InOrder id_of env c p k known h
  step-InOrder env c p (close_channel k) known h = close-InOrder id_of env c p k h
  step-InOrder env c p create_private known h = make-InOrder id_of env c p known h
  step-InOrder env c p log_out known h =
      rw known (leave_privates-IsPrivates id_of p.guid c.privates h)
  step-InOrder env c p (invite none) known h = ground arith
  step-InOrder env c p (exclude none) known h = ground arith
  step-InOrder env c p (invite (some q)) known h =
      elim (Option-cases (private_of p.guid c.privates)) [
        | inl e ↦ ground arith
        | inr (k, e) ↦ ground (arith, invite-InOrder id_of k q c h)
      ]
  step-InOrder env c p (exclude (some q)) (known, known') h =
      elim (Option-cases (private_of p.guid c.privates)) [
        | inl e ↦ ground arith
        | inr (k, e) ↦ ground (arith, exclude-InOrder id_of k q c known' h)
      ]

  abbrev pub AllKnown : List (Env × Player × Request) → Type 0
  AllKnown [] = Unit
  AllKnown ((env, p, r) ∷ rs) = IsRequest p r × AllKnown rs

  run_from-InOrder :
      (c : Chat) (rs : List (Env × Player × Request))
      → AllKnown rs
      → InOrder id_of c
      → InOrder id_of (run c rs)
  unfolding run
  run_from-InOrder c [] known h = h
  run_from-InOrder c ((env, p, r) ∷ rs) (known, more) h =
      run_from-InOrder (step env c p r) rs more (step-InOrder env c p r known h)

-- Whatever the players ask of the chat, in whatever order, from a chat without private channels on:
-- the private channels have ids from 100 to 9999, nobody owns two of them, and who uses one is its
-- owner or invited to it. Each guid has one id.
pub run-InOrder :
    (id_of : ℕ → ℕ) (normal : List (ℕ × Users)) (rs : List (Env × Player × Request))
    → AllKnown id_of rs
    → InOrder id_of (run (start normal) rs)
unfolding start
run-InOrder id_of normal rs known = run_from-InOrder id_of (start normal) rs known (tt, tt)
