-- ===== src/Crypto/Examples.antt =====
-- Tests of `Crypto`, and its theorems at concrete inputs.
use ot_tibia_teste.Common.{
  ℕ, ◌+◌, ◌*◌, ◌%◌, ◌^◌, ◌≤◌, ◌<◌, ◌≡◌, refl, List, [], ◌∷◌, some, arith, length, All,
}
use ot_tibia_teste.Common.Words.{add32}
use ot_tibia_teste.Network.Message.{max_size}
use ot_tibia_teste.Crypto.Checksum.{sum_block, sum_blocks, adler_checksum}
use ot_tibia_teste.Crypto.Checksum.Laws.{sums, adler_checksum-sums}
use ot_tibia_teste.Crypto.Xtea.{encrypt, decrypt, expand_key}
use ot_tibia_teste.Crypto.Xtea.Laws.{IsByte, decrypt-encrypt}
use ot_tibia_teste.Crypto.Xtea.Schedule.{expand_key-schedule}

abbrev some_key : ℕ → ℕ
some_key i = i + 7

abbrev block : List ℕ
block = 1 ∷ 2 ∷ 3 ∷ 4 ∷ 5 ∷ 6 ∷ 7 ∷ 255 ∷ []

schedule-long : 64 ≡ length (expand_key some_key)
schedule-long = omega (arith, (expand_key-schedule some_key).0)

decrypt-encrypt_example :
    (out : List ℕ) × (encrypt block 8 (expand_key some_key) ≡ some out)
    × All IsByte out
    × (length out ≡ 8)
    × (decrypt out 8 (expand_key some_key) ≡ some block)
decrypt-encrypt_example =
    decrypt-encrypt block (expand_key some_key) 8 (omega arith) (omega arith)
      (omega (arith, schedule-long))

expand_key-schedule_example : length (expand_key some_key) ≡ 64
expand_key-schedule_example = (expand_key-schedule some_key).0

abbrev wikipedia : List ℕ
wikipedia = 87 ∷ 105 ∷ 107 ∷ 105 ∷ 112 ∷ 101 ∷ 100 ∷ 105 ∷ 97 ∷ []

wikipedia_sum : adler_checksum wikipedia ≡ 0x11E60398
unfolding adler_checksum sum_blocks sum_block add32
wikipedia_sum = refl

adler_checksum-sums_example :
    (length wikipedia ≤ max_size
      → adler_checksum wikipedia
        ≡ (sums wikipedia 1 0).1 % 65521 * 2 ^ 16 + (sums wikipedia 1 0).0 % 65521)
    × (max_size < length wikipedia → adler_checksum wikipedia ≡ 0)
    × (adler_checksum wikipedia < 2 ^ 32)
adler_checksum-sums_example = adler_checksum-sums wikipedia (omega arith)
