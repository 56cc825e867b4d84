-- ===== src/Network/Message/Fields.antt =====
-- src/networkmessage.h: one addition to a message, and the read that finds it.
use ot_tibia_teste.Common.{ℕ, ◌+◌, ◌^◌, ◌≤◌, ◌<◌, ◌≡◌, sym, ◌∙◌, List, [], ◌∷◌, arith, length}
use ot_tibia_teste.Network.Message.Frame.{
  Agree, store-below, store_bytes-below, load-cong, load_bytes-cong, load-store, load-store_bytes,
}
use ot_tibia_teste.Network.Message.{
  Message, max_body_length, initial_buffer_position, load, store, load_bytes, store_bytes, get_byte,
  get, get_chars, add_byte, add, append_bytes,
}

-- A message that was written from the start on: the length counts what stands behind the header.
abbrev pub IsWritten : Message → Type 0
IsWritten m = m.position ≡ m.length + initial_buffer_position

-- `m'` is `m` after `k` bytes were added.
pub record Wrote (k : ℕ) (m m' : Message) : Type 0 where
  pub moved : m'.position ≡ m.position + k
  pub longer : m'.length ≡ m.length + k
  pub below : Agree 0 m.position m.buffer m'.buffer

-- `read` finds `v` in the `k` bytes that `m'` has from `at` on, in any message that has them too.
abbrev pub Reads {ℓ} : {A : Type ℓ} → (Message → A × Message) → A → ℕ → ℕ → Message → Type ℓ
Reads read v at k m' =
    (m2 : Message)
    → m2.position ≡ at
    → Agree at (at + k) m'.buffer m2.buffer
    → at + k ≤ m2.length + 8
    → at + k < max_body_length
    → read m2 ≡ (v, record m2 { position = at + k })

module _ (m : Message) (w : IsWritten m) where
  pub add-Wrote : (n v : ℕ) → m.position + n < max_body_length → Wrote n m (add n v m)
  unfolding add
  add-Wrote n v h = record {
    moved = ground arith;
    longer = ground arith;
    below = λ i lo hi. ground (arith, store-below n m.buffer m.position v i);
  }

  pub add_byte-Wrote : (v : ℕ) → m.position + 1 < max_body_length → Wrote 1 m (add_byte v m)
  unfolding add_byte
  add_byte-Wrote v h = record {
    moved = ground arith;
    longer = ground arith;
    below = λ i lo hi. ground (arith, store_bytes-below (v ∷ []) m.buffer m.position i);
  }

  pub append_bytes-Wrote :
      (s : List ℕ) → m.position + length s < max_body_length → Wrote (length s) m (append_bytes s m)
  unfolding append_bytes
  append_bytes-Wrote s h = record {
    moved = ground arith;
    longer = ground arith;
    below = λ i lo hi. ground (arith, store_bytes-below s m.buffer m.position i);
  }

module _ (m : Message) where
  pub get-Reads :
      (n v : ℕ)
      → m.position + n < max_body_length
      → v < 256 ^ n
      → Reads (get n) v m.position n (add n v m)
  unfolding add get
  get-Reads n v h small m2 at agree room body =
      let same : load n m2.buffer m.position ≡ v =
        sym (
          load-cong n (store n m.buffer m.position v) m2.buffer m.position
            (λ i lo hi. ground (arith, agree i lo hi)))
        ∙ load-store n m.buffer m.position v small in
      ground (arith, same)

  pub add_byte-Reads :
      (v : ℕ) → m.position + 1 < max_body_length → Reads get_byte v m.position 1 (add_byte v m)
  unfolding add_byte get_byte store_bytes
  add_byte-Reads v h m2 at agree room body =
      let same : v ≡ m2.buffer m.position = ground (arith, agree m.position) in ground (arith, same)

  pub append_bytes-Reads :
      (s : List ℕ)
      → m.position + length s < max_body_length
      → Reads (get_chars (length s)) s m.position (length s) (append_bytes s m)
  unfolding append_bytes get_chars
  append_bytes-Reads s h m2 at agree room body =
      let same : load_bytes (length s) m2.buffer m.position ≡ s =
        sym (
          load_bytes-cong (length s) (store_bytes s m.buffer m.position) m2.buffer m.position agree)
        ∙ load-store_bytes s m.buffer m.position in
      ground (arith, same)

-- One thing added behind another.
pub Wrote-trans : (j k : ℕ) (m m1 m2 : Message) → Wrote j m m1 → Wrote k m1 m2 → Wrote (j + k) m m2
Wrote-trans j k m m1 m2 a b = record {
  moved = omega (arith, a.moved, b.moved);
  longer = omega (arith, a.longer, b.longer);
  below = λ i lo hi. a.below i lo hi ∙ b.below i lo (omega (arith, a.moved));
}

pub Wrote-IsWritten : (k : ℕ) (m m' : Message) → Wrote k m m' → IsWritten m → IsWritten m'
Wrote-IsWritten k m m' w h = omega (arith, w.moved, w.longer)

-- What was read back before more was added still is.
pub Reads-later {ℓ} :
    {A : Type ℓ} (read : Message → A × Message) (v : A) (at j k : ℕ) (m1 m2 : Message)
    → Reads read v at j m1
    → m1.position ≡ at + j
    → Wrote k m1 m2
    → Reads read v at j m2
Reads-later read v at j k m1 m2 r e w m3 p agree =
    r m3 p (λ i lo hi. w.below i (omega arith) (omega arith) ∙ agree i lo hi)
