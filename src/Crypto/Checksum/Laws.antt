-- ===== src/Crypto/Checksum/Laws.antt =====
-- src/tools.cpp: `adlerChecksum` against the definition of Adler-32.
use ot_tibia_teste.Common.{
  ℕ, zero, suc, ◌+◌, ◌*◌, ◌%◌, ◌^◌, ◌≤◌, ◌<◌, ◌≡◌, refl, sym, ap, ◌∙◌, List, [], ◌∷◌, ◌++◌, arith,
  length, take, drop, length-drop, All,
}
use ot_tibia_teste.Common.Words.{add32}
use ot_tibia_teste.Network.Message.{max_size}
use ot_tibia_teste.Crypto.Xtea.Laws.{IsByte}
use ot_tibia_teste.Crypto.Checksum.{sum_block, sum_blocks, combine, adler_checksum}

-- Adler-32: the sum of the bytes, and the sum of the sums, without bound.
abbrev pub sums : List ℕ → ℕ → ℕ → ℕ × ℕ
sums [] a b = (a, b)
sums (byte ∷ bytes) a b = sums bytes (a + byte) (b + (a + byte))

triangle : ℕ → ℕ
triangle zero = 0
triangle (suc n) = triangle n + suc n

triangle_block : triangle 5552 ≡ 15415128
unfolding triangle
triangle_block = refl

triangle_le : (i n : ℕ) → i ≤ n → triangle i ≤ triangle n
unfolding triangle
triangle_le zero n le = omega arith
triangle_le (suc i) zero le = omega arith
triangle_le (suc i) (suc n) le = omega (arith, triangle_le i n (omega arith))

-- A block of the loop does not overflow.
sum_block-sums :
    (i : ℕ) (bytes : List ℕ) (a b : ℕ)
    → All IsByte bytes
    → i + length bytes ≤ 5552
    → a ≤ 65520 + 255 * i
    → b ≤ 65520 + 65520 * i + 255 * triangle i
    → sum_block bytes a b ≡ sums bytes a b
unfolding sum_block triangle add32
sum_block-sums i [] a b h n p q = refl
sum_block-sums i (byte ∷ bytes) a b h n p q =
    let low = triangle_le (suc i) 5552 (omega arith) in
    let first : (a + byte) % 2 ^ 32 ≡ a + byte = omega (arith, h.0) in
    let second : (b + (a + byte)) % 2 ^ 32 ≡ b + (a + byte) =
      omega (arith, h.0, low, triangle_block) in
    rw (first, second)
      (sum_block-sums (suc i) bytes (a + byte) (b + (a + byte)) h.1 (omega arith)
        (omega (arith, h.0)) (omega (arith, h.0)))

append-sums :
    (xs ys : List ℕ) (a b : ℕ) → sums (xs ++ ys) a b ≡ sums ys (sums xs a b).0 (sums xs a b).1
append-sums [] ys a b = refl
append-sums (x ∷ xs) ys a b = append-sums xs ys (a + x) (b + (a + x))

-- Sums begun at remainders have the same remainders.
sums_mod :
    (bytes : List ℕ) (a b a' b' : ℕ)
    → a % 65521 ≡ a' % 65521
    → b % 65521 ≡ b' % 65521
    → ((sums bytes a b).0 % 65521 ≡ (sums bytes a' b').0 % 65521)
      × ((sums bytes a b).1 % 65521 ≡ (sums bytes a' b').1 % 65521)
sums_mod [] a b a' b' p q = (p, q)
sums_mod (x ∷ xs) a b a' b' p q =
    sums_mod xs (a + x) (b + (a + x)) (a' + x) (b' + (a' + x)) (omega arith) (omega arith)

take-drop {ℓ} : {A : Type ℓ} (n : ℕ) (xs : List A) → take n xs ++ drop n xs ≡ xs
take-drop zero xs = refl
take-drop (suc n) [] = refl
take-drop (suc n) (x ∷ xs) = ap (λ l. x ∷ l) (take-drop n xs)

take-All {ℓ κ} : {A : Type ℓ} (P : A → Type κ) (n : ℕ) (xs : List A) → All P xs → All P (take n xs)
take-All P zero xs h = tt
take-All P (suc n) [] h = tt
take-All P (suc n) (x ∷ xs) h = (h.0, take-All P n xs h.1)

drop-All {ℓ κ} : {A : Type ℓ} (P : A → Type κ) (n : ℕ) (xs : List A) → All P xs → All P (drop n xs)
drop-All P zero xs h = h
drop-All P (suc n) [] h = tt
drop-All P (suc n) (x ∷ xs) h = drop-All P n xs h.1

length-take {ℓ} : {A : Type ℓ} (n : ℕ) (xs : List A) → length (take n xs) ≤ n
length-take zero xs = omega arith
length-take (suc n) [] = omega arith
length-take (suc n) (x ∷ xs) = omega (arith, length-take n xs)

abbrev Remainders : ℕ × ℕ → ℕ × ℕ → Type 0
Remainders s t = (s.0 ≡ t.0 % 65521) × (s.1 ≡ t.1 % 65521)

sum_blocks-sums :
    (fuel : ℕ) (bytes : List ℕ) (a b : ℕ)
    → All IsByte bytes
    → length bytes ≤ fuel
    → a < 65521
    → b < 65521
    → Remainders (sum_blocks fuel bytes a b) (sums bytes a b)
unfolding sum_blocks
sum_blocks-sums zero [] a b h n p q = (omega arith, omega arith)
sum_blocks-sums (suc fuel) [] a b h n p q = (omega arith, omega arith)
sum_blocks-sums zero (byte ∷ bytes) a b h n p q = elim n [ ]
sum_blocks-sums (suc fuel) (byte ∷ bytes) a b h n p q =
    let all = byte ∷ bytes in
    let block = take 5552 all in
    let rest = drop 5552 all in
    let exact : sum_block block a b ≡ sums block a b =
      sum_block-sums 0 block a b (take-All IsByte 5552 all h) (omega (arith, length-take 5552 all))
        (omega arith) (omega arith) in
    let (a', b') = sum_block block a b in
    let (go_a, go_b) =
      sum_blocks-sums fuel rest (a' % 65521) (b' % 65521) (drop-All IsByte 5552 all h)
        (omega (arith, length-drop 5551 bytes)) (omega arith) (omega arith) in
    let (same_a, same_b) =
      sums_mod rest (a' % 65521) (b' % 65521) (sums block a b).0 (sums block a b).1
        (omega (arith, ap (λ s. s.0) exact)) (omega (arith, ap (λ s. s.1) exact)) in
    let split : sums rest (sums block a b).0 (sums block a b).1 ≡ sums all a b =
      sym (append-sums block rest a b) ∙ ap (λ l. sums l a b) (take-drop 5552 all) in
    (go_a ∙ same_a ∙ ap (λ s. s.0 % 65521) split, go_b ∙ same_b ∙ ap (λ s. s.1 % 65521) split)

-- The checksum of a buffer of bytes is Adler-32 of it: the sums never overflow in 5552 bytes, so that
-- the remainders may wait for the end of a block. A buffer beyond the largest message has checksum 0,
-- and every checksum fits in 32 bits.
pub adler_checksum-sums :
    (bytes : List ℕ)
    → All IsByte bytes
    → (length bytes ≤ max_size
        → adler_checksum bytes ≡ (sums bytes 1 0).1 % 65521 * 2 ^ 16 + (sums bytes 1 0).0 % 65521)
      × (max_size < length bytes → adler_checksum bytes ≡ 0)
      × (adler_checksum bytes < 2 ^ 32)
unfolding adler_checksum combine
adler_checksum-sums bytes h =
    let (a, b) =
      sum_blocks-sums (length bytes) bytes 1 0 h (omega arith) (omega arith) (omega arith) in
    (ground (arith, a, b), ground arith, ground (arith, a, b))
