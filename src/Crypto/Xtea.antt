-- ===== src/Crypto/Xtea.antt =====
-- src/xtea.cpp: the XTEA block cipher over a message buffer.
-- A buffer is a list of bytes. `none` is a fault: a block that reaches past the end of the buffer,
-- or a round key that is not there.
pub mod Laws
pub mod Schedule
use Prim.Native.Nat.{bit_xor, bit_and}
use ot_tibia_teste.Common.{
  ℕ, zero, suc, ◌+◌, ◌*◌, ◌/◌, ◌%◌, ◌^◌, List, [], ◌∷◌, ◌++◌, Option, none, some, ◌>>=◌, get_elem?,
}
use ot_tibia_teste.Common.Words.{u8, u32, add32, sub32}

abbrev pub delta : ℕ
delta = 0x9E3779B9

-- A round: two 32-bit words to two.
abbrev pub Round : Type 0
Round = ℕ → ℕ → ℕ × ℕ

-- `b0 | b1 << 8u | b2 << 16u | b3 << 24u`: the bits of the bytes are disjoint, so `|` is a sum.
pub load_word : ℕ → ℕ → ℕ → ℕ → ℕ
load_word b0 b1 b2 b3 = b0 + b1 * 2 ^ 8 + b2 * 2 ^ 16 + b3 * 2 ^ 24

pub store_word : ℕ → List ℕ → List ℕ
store_word w rest = u8 w ∷ u8 (w / 2 ^ 8) ∷ u8 (w / 2 ^ 16) ∷ u8 (w / 2 ^ 24) ∷ rest

-- The loop of `apply_rounds` with so many blocks to go.
pub apply_blocks : Round → ℕ → List ℕ → Option (List ℕ)
unfolding load_word store_word
apply_blocks round zero bytes = some bytes
apply_blocks round (suc n) (b0 ∷ b1 ∷ b2 ∷ b3 ∷ b4 ∷ b5 ∷ b6 ∷ b7 ∷ rest) =
    let (left, right) = round (load_word b0 b1 b2 b3) (load_word b4 b5 b6 b7) in
    apply_blocks round n rest >>= λ tail. some (store_word left (store_word right tail))
apply_blocks round (suc n) _ = none

-- `j` runs over 0, 8, … below `length`, so a last partial block is a whole round.
pub apply_rounds : List ℕ → ℕ → Round → Option (List ℕ)
apply_rounds bytes len round = apply_blocks round ((len + 7) / 8) bytes

-- `((x << 4 ^ x >> 5) + x) ^ k` on uint32_t.
pub mix : ℕ → ℕ → ℕ
mix x k = bit_xor (add32 (bit_xor (u32 (x * 2 ^ 4)) (x / 2 ^ 5)) x) k

pub encrypt_round : ℕ → ℕ → Round
encrypt_round k0 k1 left right =
    let left' = add32 left (mix right k0) in (left', add32 right (mix left' k1))

pub decrypt_round : ℕ → ℕ → Round
decrypt_round k0 k1 left right =
    let right' = sub32 right (mix left k1) in (sub32 left (mix right' k0), right')

-- The state of the loop of `encrypt` after the passes for i = 0, 2, …, 2 (n - 1).
pub encrypt_passes : ℕ → List ℕ → ℕ → List ℕ → Option (List ℕ)
encrypt_passes zero bytes len k = some bytes
encrypt_passes (suc n) bytes len k = do
  done ← encrypt_passes n bytes len k
  k0 ← get_elem? k (n * 2)
  k1 ← get_elem? k (n * 2 + 1)
  apply_rounds done len (encrypt_round k0 k1)

-- The loop of `decrypt` for i = 2 (n - 1) + 1, …, 3, 1.
pub decrypt_passes : ℕ → List ℕ → ℕ → List ℕ → Option (List ℕ)
decrypt_passes zero bytes len k = some bytes
decrypt_passes (suc n) bytes len k = do
  k1 ← get_elem? k (n * 2 + 1)
  k0 ← get_elem? k (n * 2)
  done ← apply_rounds bytes len (decrypt_round k0 k1)
  decrypt_passes n done len k

-- `round_keys` is an array of 64, so both loops make 32 passes.
abbrev pub passes : ℕ
passes = 32

pub encrypt : List ℕ → ℕ → List ℕ → Option (List ℕ)
encrypt bytes len k = encrypt_passes passes bytes len k

pub decrypt : List ℕ → ℕ → List ℕ → Option (List ℕ)
decrypt bytes len k = decrypt_passes passes bytes len k

-- The loop of `expand_key`, with so many pairs to go; `sum + delta` is `next_sum`.
pub expand_from : ℕ → ℕ → (ℕ → ℕ) → List ℕ
expand_from zero sum k = []
expand_from (suc n) sum k =
    let next_sum = add32 sum delta in
    add32 sum (k (bit_and sum 3))
    ∷ add32 next_sum (k (bit_and (next_sum / 2 ^ 11) 3))
    ∷ expand_from n next_sum k

-- A key is an array of four words.
pub expand_key : (ℕ → ℕ) → List ℕ
expand_key k = expand_from passes 0 k
