-- ===== src/Party/Examples.antt =====
-- Tests of `Party`, and its theorems at concrete inputs.
use ot_tibia_teste.Common.{◌≡◌, refl, List, [], ◌∷◌, none, some, true, false, ◌==◌, if◌then◌else◌}
use ot_tibia_teste.Geometry.Position.{position}
use ot_tibia_teste.Party.{Env, Party, Players, set_party, leave_party, outcome}
use ot_tibia_teste.Party.Veto.{leave_party-vetoed}
use ot_tibia_teste.Party.World.{World, Request, invite, join, leave, run, start}
use ot_tibia_teste.Party.World.Safety.{Inv}
use ot_tibia_teste.Party.World.Requests.{run-Inv, Disbands}

abbrev calm : Env
calm = record {
  on_disband = λ a. true;
  on_leave = λ a x. true;
  on_join = λ a x. true;
  level = λ x. 20;
  place = λ x. position 100 100 7;
  not_gain_in_fight = λ x. false;
  now = 1000;
  pz_locked = 60000;
  online = λ x. true;
  in_fight = λ x. false;
  in_protection_zone = λ x. true;
}

-- Player 1 invites 2 and 3; 2 joins; 1 leaves, so that 2 leads; 2 leaves, and the party disbands.
abbrev history : List (Env × Request)
history =
    (calm, invite 1 2)
    ∷ (calm, invite 1 3)
    ∷ (calm, join 2 1)
    ∷ (calm, leave 1)
    ∷ (calm, leave 2)
    ∷ []

history-Disbands : Disbands history
history-Disbands = (λ a. refl, (λ a. refl, (λ a. refl, (λ a. refl, (λ a. refl, tt)))))

run-Inv_example : (w : World) × (run start history ≡ some w) × Inv w
run-Inv_example = run-Inv history history-Disbands

-- The event refuses to disband.
abbrev stubborn : Env
stubborn = record calm { on_disband = λ a. false }

abbrev alone : Players
alone = record { party_of = λ x. if x == 1 then some 0 else none; invited = λ x. [] }

abbrev lone_party : Party
lone_party = record {
  leader = 1;
  members = [];
  invitees = [];
  ticks = [];
  shared_exp_active = false;
  shared_exp_enabled = false;
}

leave_party-vetoed_example :
    (q : Party) × (leave_party stubborn 0 1 alone lone_party
      ≡ outcome (set_party 1 none alone) (some q) true)
    × (q.leader ≡ 1)
    × (q.members ≡ [])
    × ((set_party 1 none alone).party_of q.leader ≡ none)
leave_party-vetoed_example = leave_party-vetoed stubborn 0 1 alone lone_party refl refl refl refl
