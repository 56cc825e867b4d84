-- ===== src/Network/Message/Frame.antt =====
-- src/networkmessage.h: what the copies into and out of the buffer read and write.
use native.Mathlib.Nat.{pow-suc}
use ot_tibia_teste.Common.{
  ℕ, zero, suc, ◌+◌, ◌/◌, ◌^◌, ◌≤◌, ◌<◌, ◌≡◌, refl, List, [], ◌∷◌, arith, length,
}
use ot_tibia_teste.Network.Message.{load, store, load_bytes, store_bytes}

abbrev pub Buffer : Type 0
Buffer = ℕ → ℕ

-- Two buffers agree from `lo` on, below `hi`.
abbrev pub Agree : ℕ → ℕ → Buffer → Buffer → Type 0
Agree lo hi b c = (i : ℕ) → lo ≤ i → i < hi → b i ≡ c i

pub store-below : (n : ℕ) (b : Buffer) (at v i : ℕ) → i < at → store n b at v i ≡ b i
unfolding store
store-below zero b at v i h = refl
store-below (suc n) b at v i h = ground (arith, store-below n b (suc at) (v / 256) i)

pub store_bytes-below : (bs : List ℕ) (b : Buffer) (at i : ℕ) → i < at → store_bytes bs b at i ≡ b i
unfolding store_bytes
store_bytes-below [] b at i h = refl
store_bytes-below (x ∷ bs) b at i h = ground (arith, store_bytes-below bs b (suc at) i)

pub load-cong : (n : ℕ) (b c : Buffer) (at : ℕ) → Agree at (at + n) b c → load n b at ≡ load n c at
unfolding load
load-cong zero b c at h = refl
load-cong (suc n) b c at h = ground (
  arith,
  h at (omega arith) (omega arith),
  load-cong n b c (suc at) (λ i lo hi. h i (omega arith) (omega arith)),
)

pub load_bytes-cong :
    (n : ℕ) (b c : Buffer) (at : ℕ) → Agree at (at + n) b c → load_bytes n b at ≡ load_bytes n c at
unfolding load_bytes
load_bytes-cong zero b c at h = refl
load_bytes-cong (suc n) b c at h = cc (
  h at (omega arith) (omega arith),
  load_bytes-cong n b c (suc at) (λ i lo hi. h i (omega arith) (omega arith)),
)

-- A number that fits its bytes is read back.
pub load-store : (n : ℕ) (b : Buffer) (at v : ℕ) → v < 256 ^ n → load n (store n b at v) at ≡ v
unfolding load store
load-store zero b at v h = omega arith
load-store (suc n) b at v h =
    let tail : load n (store (suc n) b at v) (suc at)
        ≡ load n (store n b (suc at) (v / 256)) (suc at) =
      load-cong n _ _ (suc at) (λ i lo hi. ground arith) in
    let small : v / 256 < 256 ^ n = omega (arith, pow-suc 256 n) in
    ground (arith, tail, load-store n b (suc at) (v / 256) small)

pub load-store_bytes :
    (bs : List ℕ) (b : Buffer) (at : ℕ) → load_bytes (length bs) (store_bytes bs b at) at ≡ bs
unfolding load_bytes store_bytes
load-store_bytes [] b at = refl
load-store_bytes (x ∷ bs) b at =
    let tail : load_bytes (length bs) (store_bytes (x ∷ bs) b at) (suc at)
        ≡ load_bytes (length bs) (store_bytes bs b (suc at)) (suc at) =
      load_bytes-cong (length bs) _ _ (suc at) (λ i lo hi. ground arith) in
    ground (arith, tail, load-store_bytes bs b (suc at))
