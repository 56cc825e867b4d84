-- ===== src/Network/Admission.antt =====
-- src/ban.h and src/ban.cpp: `Ban::acceptConnection`, the limit on connections from an address.
-- The clock is an argument. Times are uint64_t milliseconds and stay below 2 ^ 63, so the sums and
-- the signed difference are exact; the count never passes 5 (`Laws`), so it is exact too.
pub mod Laws
use ot_tibia_teste.Common.{
  ℕ, suc, ◌+◌, ◌<◌, ◌≡◌, List, [], ◌∷◌, Option, none, some, Bool, true, false, ltb, leb,
  if◌then◌else◌,
}
use ot_tibia_teste.Common.Int.{ℤ, pos, sub_ℕ, leb_ℤ}
use ot_tibia_teste.Common.Maps.{lookup, insert}

pub record ConnectBlock : Type 0 where
  pub last_attempt : ℕ
  pub block_time : ℕ
  pub count : ℕ

-- `ipConnectMap`
abbrev pub Bans : Type 0
Bans = List (ℕ × ConnectBlock)

-- The branches for a known address: its block after the call, and the answer.
unfoldable pub attempt : ConnectBlock → ℕ → ConnectBlock × Bool
attempt b now =
    if ltb now b.block_time
    then (record b { block_time = b.block_time + 250 }, false)
    else let diff = sub_ℕ now b.last_attempt in
      let count = b.count + 1 in
      if leb_ℤ diff (pos 5000)
      then (if ltb 5 count
          then (if leb_ℤ diff (pos 500)
              then (record { last_attempt = now; block_time = now + 3000; count = 0 }, false)
              else (record b { last_attempt = now; count = 0 }, true))
          else (record b { last_attempt = now; count = count }, true))
      else (record b { last_attempt = now; count = 1 }, true)

answer : ℕ → Bans → ConnectBlock × Bool → Bans × Bool
answer ip bans (b, accepted) = (insert ip b bans, accepted)

unfoldable pub accept_connection : Bans → ℕ → ℕ → Bans × Bool
unfolding answer attempt
accept_connection bans now ip = elim (lookup ip bans) [
  | none ↦ (insert ip (record { last_attempt = now; block_time = 0; count = 1 }) bans, true)
  | some b ↦ answer ip bans (attempt b now)
]

-- The answers to attempts of one address at the given times.
pub attempts : Bans → ℕ → List ℕ → List Bool
attempts bans ip [] = []
attempts bans ip (now ∷ later) =
    (accept_connection bans now ip).1 ∷ attempts (accept_connection bans now ip).0 ip later
