-- ===== src/Crypto/Xtea/Schedule.antt =====
-- src/xtea.cpp: what the loop of `expand_key` computes.
use Prim.Native.Nat.{bit_and}
use ot_tibia_teste.Common.{
  ℕ, zero, suc, ◌+◌, ◌*◌, ◌/◌, ◌^◌, ◌<◌, ◌≡◌, refl, some, arith, get_elem?, length,
}
use ot_tibia_teste.Common.Words.{u32, add32}
use ot_tibia_teste.Crypto.Xtea.{delta, expand_from, expand_key}

-- The sums of the schedule, in the form of the cipher's definition: `i * delta` modulo 2 ^ 32.
abbrev pub sum_at : ℕ → ℕ
sum_at i = u32 (i * delta)

length-expand_from : (n s : ℕ) (k : ℕ → ℕ) → length (expand_from n s k) ≡ n * 2
unfolding expand_from
length-expand_from zero s k = refl
length-expand_from (suc n) s k = omega (arith, length-expand_from n (add32 s delta) k)

sum_at-suc : (i : ℕ) → add32 (sum_at i) delta ≡ sum_at (suc i)
unfolding add32
sum_at-suc i = omega arith

-- The two entries of round `i` in a schedule that starts at round `j`.
expand_from-get :
    (n j i : ℕ) (k : ℕ → ℕ)
    → i < n
    → (get_elem? (expand_from n (sum_at j) k) (i * 2)
        ≡ some (add32 (sum_at (j + i)) (k (bit_and (sum_at (j + i)) 3))))
      × (get_elem? (expand_from n (sum_at j) k) (suc (i * 2))
          ≡ some (add32 (sum_at (suc (j + i))) (k (bit_and (sum_at (suc (j + i)) / 2 ^ 11) 3))))
unfolding expand_from
expand_from-get zero j i k h = absurd (omega arith)
expand_from-get (suc n) j zero k h =
    let e : j + 0 ≡ j = omega arith in rw (e, sum_at-suc j) (refl, refl)
expand_from-get (suc n) j (suc i) k h =
    let e : j + suc i ≡ suc j + i = omega arith in
    let d : suc i * 2 ≡ suc (suc (i * 2)) = omega arith in
    rw (e, d, sum_at-suc j) (expand_from-get n (suc j) i k (omega arith))

-- `expand_key` yields 64 words; for i < 32 the words 2 i and 2 i + 1 are
-- sum + key[sum & 3] at sum = i * delta, and sum + key[(sum >> 11) & 3] at sum = (i + 1) * delta,
-- all modulo 2 ^ 32.
pub expand_key-schedule :
    (k : ℕ → ℕ)
    → (length (expand_key k) ≡ 64)
      × ((i : ℕ)
          → i < 32
          → (get_elem? (expand_key k) (i * 2) ≡ some (add32 (sum_at i) (k (bit_and (sum_at i) 3))))
            × (get_elem? (expand_key k) (suc (i * 2))
                ≡ some (add32 (sum_at (suc i)) (k (bit_and (sum_at (suc i) / 2 ^ 11) 3)))))
unfolding expand_key
expand_key-schedule k = (
  length-expand_from 32 0 k,
  λ i h. let e : 0 + i ≡ i = omega arith in rw e at (expand_from-get 32 0 i k h),
)
