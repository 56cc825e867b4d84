-- ===== src/Crypto/Checksum.antt =====
-- src/tools.cpp: `adlerChecksum`. The sums are uint32_t; the outer loop, a block of at most 5552
-- bytes at a turn, has fuel for as many turns as there are bytes.
pub mod Laws
use ot_tibia_teste.Common.{
  ℕ, zero, suc, ◌+◌, ◌*◌, ◌%◌, ◌^◌, List, [], ◌∷◌, ltb, if◌then◌else◌, length, take, drop,
}
use ot_tibia_teste.Common.Words.{u32, add32}
use ot_tibia_teste.Network.Message.{max_size}

-- The inner loop over a block.
unfoldable pub sum_block : List ℕ → ℕ → ℕ → ℕ × ℕ
unfolding add32
sum_block [] a b = (a, b)
sum_block (byte ∷ bytes) a b = let a' = add32 a byte in sum_block bytes a' (add32 b a')

unfoldable pub sum_blocks : ℕ → List ℕ → ℕ → ℕ → ℕ × ℕ
unfolding sum_block
sum_blocks zero bytes a b = (a, b)
sum_blocks (suc fuel) [] a b = (a, b)
sum_blocks (suc fuel) (byte ∷ bytes) a b =
    let (a', b') = sum_block (take 5552 (byte ∷ bytes)) a b in
    sum_blocks fuel (drop 5552 (byte ∷ bytes)) (a' % 65521) (b' % 65521)

-- `(b << 16) | a`: the low half of the shifted sum is empty and `a` fits in it.
combine : ℕ × ℕ → ℕ
combine (a, b) = u32 (b * 2 ^ 16) + a

unfoldable pub adler_checksum : List ℕ → ℕ
unfolding sum_blocks combine
adler_checksum bytes =
    if ltb max_size (length bytes) then 0 else combine (sum_blocks (length bytes) bytes 1 0)
