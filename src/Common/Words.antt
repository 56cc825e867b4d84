-- ===== src/Common/Words.antt =====
-- Unsigned machine integers as native numbers: the wrap-around is written out.
use ot_tibia_teste.Common.{ℕ, ◌+◌, ◌-◌, ◌%◌, ◌^◌, ◌<◌, ◌≡◌, arith}

abbrev pub u8 : ℕ → ℕ
u8 n = n % 2 ^ 8

abbrev pub u16 : ℕ → ℕ
u16 n = n % 2 ^ 16

abbrev pub u32 : ℕ → ℕ
u32 n = n % 2 ^ 32

abbrev pub u64 : ℕ → ℕ
u64 n = n % 2 ^ 64

-- uint32_t a + b and a - b.
unfoldable pub add32 : ℕ → ℕ → ℕ
add32 a b = (a + b) % 2 ^ 32

unfoldable pub sub32 : ℕ → ℕ → ℕ
sub32 a b = (a + 2 ^ 32 - b % 2 ^ 32) % 2 ^ 32

-- uint64_t a - b.
unfoldable pub sub64 : ℕ → ℕ → ℕ
sub64 a b = (a + 2 ^ 64 - b % 2 ^ 64) % 2 ^ 64

pub add32-lt : (a b : ℕ) → add32 a b < 2 ^ 32
unfolding add32
add32-lt a b = omega arith

pub sub32-add32 : (a b : ℕ) → a < 2 ^ 32 → sub32 (add32 a b) b ≡ a
unfolding add32 sub32
sub32-add32 a b h = omega arith
