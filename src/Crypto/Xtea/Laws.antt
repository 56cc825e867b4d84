-- ===== src/Crypto/Xtea/Laws.antt =====
-- src/xtea.cpp: decryption undoes encryption.
use ot_tibia_teste.Common.{
  ℕ, zero, suc, ◌+◌, ◌*◌, ◌/◌, ◌^◌, ◌≤◌, ◌<◌, ◌≡◌, refl, ap, ◌∙◌, List, [], ◌∷◌, Option, some,
  arith, get_elem?, length, All,
}
use ot_tibia_teste.Common.Words.{u8, add32, add32-lt, sub32-add32}
use ot_tibia_teste.Crypto.Xtea.{
  Round, load_word, store_word, apply_blocks, apply_rounds, mix, encrypt_round, decrypt_round,
  encrypt_passes, decrypt_passes, encrypt, decrypt,
}

abbrev pub IsByte : ℕ → Type 0
IsByte b = b < 2 ^ 8

-- A word stored and loaded again.
load-store :
    (w : ℕ) → w < 2 ^ 32 → load_word (u8 w) (u8 (w / 2 ^ 8)) (u8 (w / 2 ^ 16)) (u8 (w / 2 ^ 24)) ≡ w
unfolding load_word
load-store w h = omega arith

decrypt-encrypt_round :
    (k0 k1 left right : ℕ)
    → left < 2 ^ 32
    → right < 2 ^ 32
    → decrypt_round k0 k1 (encrypt_round k0 k1 left right).0 (encrypt_round k0 k1 left right).1
      ≡ (left, right)
unfolding decrypt_round encrypt_round
decrypt-encrypt_round k0 k1 left right hl hr =
    let l = add32 left (mix right k0) in
    rw (sub32-add32 right (mix l k1) hr, sub32-add32 left (mix right k0) hl)

-- A round that `undo` takes back, on 32-bit words, with 32-bit results.
abbrev Undoes : Round → Round → Type 0
Undoes round undo =
    (l r : ℕ)
    → l < 2 ^ 32
    → r < 2 ^ 32
    → ((round l r).0 < 2 ^ 32)
      × ((round l r).1 < 2 ^ 32)
      × (undo (round l r).0 (round l r).1 ≡ (l, r))

decrypt_round-Undoes : (k0 k1 : ℕ) → Undoes (encrypt_round k0 k1) (decrypt_round k0 k1)
unfolding encrypt_round
decrypt_round-Undoes k0 k1 l r hl hr = (
  add32-lt l (mix r k0),
  add32-lt r (mix (add32 l (mix r k0)) k1),
  decrypt-encrypt_round k0 k1 l r hl hr,
)

load_word-lt :
    (a b c d : ℕ) → IsByte a → IsByte b → IsByte c → IsByte d → load_word a b c d < 2 ^ 32
unfolding load_word
load_word-lt a b c d ha hb hc hd = omega arith

store-load :
    (a b c d : ℕ) (rest : List ℕ)
    → IsByte a
    → IsByte b
    → IsByte c
    → IsByte d
    → store_word (load_word a b c d) rest ≡ a ∷ b ∷ c ∷ d ∷ rest
unfolding load_word store_word
store-load a b c d rest ha hb hc hd = ground arith

store_word-IsByte : (w : ℕ) (rest : List ℕ) → All IsByte rest → All IsByte (store_word w rest)
unfolding store_word
store_word-IsByte w rest h = (omega arith, (omega arith, (omega arith, (omega arith, h))))

length-store_word :
    (v w : ℕ) (xs ys : List ℕ)
    → length xs ≡ length ys
    → length (store_word v (store_word w xs)) ≡ length ys + 8
unfolding store_word
length-store_word v w xs ys h = omega arith

-- What the passes over a buffer need to know of one of them.
record Undone (pass back : List ℕ → Option (List ℕ)) (bytes : List ℕ) : Type 0 where
  out : List ℕ
  runs : pass bytes ≡ some out
  octets : All IsByte out
  kept : length out ≡ length bytes
  undo : back out ≡ some bytes

module _ (round undo : Round) (u : Undoes round undo) where
  apply_blocks-Undone :
      (n : ℕ) (bytes : List ℕ)
      → All IsByte bytes
      → n * 8 ≤ length bytes
      → Undone (apply_blocks round n) (apply_blocks undo n) bytes
  unfolding apply_blocks
  apply_blocks-Undone zero bytes b h = record {
    out = bytes;
    runs = refl;
    octets = b;
    kept = refl;
    undo = refl;
  }
  apply_blocks-Undone (suc n) (b0 ∷ b1 ∷ b2 ∷ b3 ∷ b4 ∷ b5 ∷ b6 ∷ b7 ∷ rest) b h =
      let ih : Undone (apply_blocks round n) (apply_blocks undo n) rest =
        apply_blocks-Undone n rest b.1.1.1.1.1.1.1.1 (omega arith) in
      let l = load_word b0 b1 b2 b3 in
      let r = load_word b4 b5 b6 b7 in
      let hl : l < 2 ^ 32 = load_word-lt b0 b1 b2 b3 b.0 b.1.0 b.1.1.0 b.1.1.1.0 in
      let hr : r < 2 ^ 32 =
        load_word-lt b4 b5 b6 b7 b.1.1.1.1.0 b.1.1.1.1.1.0 b.1.1.1.1.1.1.0 b.1.1.1.1.1.1.1.0 in
      let w0 = (round l r).0 in
      let w1 = (round l r).1 in
      let fits = u l r hl hr in
      record {
        out = store_word w0 (store_word w1 ih.out);
        runs = rw ih.runs;
        octets =
            store_word-IsByte w0 (store_word w1 ih.out) (store_word-IsByte w1 ih.out ih.octets);
        kept = omega (arith, length-store_word w0 w1 ih.out rest ih.kept);
        undo =
            rw (load-store w0 fits.0, load-store w1 fits.1, fits.2, ih.undo)
              (rw
                (store-load b4 b5 b6 b7 rest b.1.1.1.1.0 b.1.1.1.1.1.0 b.1.1.1.1.1.1.0
                  b.1.1.1.1.1.1.1.0)
                (ap some (store-load b0 b1 b2 b3 _ b.0 b.1.0 b.1.1.0 b.1.1.1.0)));
      }
  apply_blocks-Undone (suc n) _ b h = absurd (omega arith)

  apply_rounds-Undone :
      (len : ℕ) (bytes : List ℕ)
      → All IsByte bytes
      → (len + 7) / 8 * 8 ≤ length bytes
      → Undone (λ b. apply_rounds b len round) (λ b. apply_rounds b len undo) bytes
  unfolding apply_rounds
  apply_rounds-Undone len bytes b h = apply_blocks-Undone ((len + 7) / 8) bytes b h

-- There are at least `2 n` round keys.
get_elem?-some {ℓ} :
    {A : Type ℓ} (i : ℕ) (l : List A) → i < length l → (a : A) × (get_elem? l i ≡ some a)
get_elem?-some zero [] h = elim h [ ]
get_elem?-some zero (x ∷ l) h = (x, refl)
get_elem?-some (suc i) [] h = elim h [ ]
get_elem?-some (suc i) (x ∷ l) h = get_elem?-some i l (omega arith)

decrypt_passes-Undone :
    (n len : ℕ) (k bytes : List ℕ)
    → n * 2 ≤ length k
    → All IsByte bytes
    → (len + 7) / 8 * 8 ≤ length bytes
    → Undone (λ b. encrypt_passes n b len k) (λ b. decrypt_passes n b len k) bytes
unfolding encrypt_passes decrypt_passes
decrypt_passes-Undone zero len k bytes hk b h = record {
  out = bytes;
  runs = refl;
  octets = b;
  kept = refl;
  undo = refl;
}
decrypt_passes-Undone (suc n) len k bytes hk b h =
    let first : Undone (λ b. encrypt_passes n b len k) (λ b. decrypt_passes n b len k) bytes =
      decrypt_passes-Undone n len k bytes (omega arith) b h in
    let (k0, e0) = get_elem?-some (n * 2) k (omega arith) in
    let (k1, e1) = get_elem?-some (n * 2 + 1) k (omega arith) in
    let last =
      apply_rounds-Undone (encrypt_round k0 k1) (decrypt_round k0 k1) (decrypt_round-Undoes k0 k1)
        len first.out first.octets (rw first.kept h) in
    record {
      out = last.out;
      runs = rw (first.runs, e0, e1) last.runs;
      octets = last.octets;
      kept = last.kept ∙ first.kept;
      undo = rw (e1, e0, last.undo) first.undo;
    }

-- Encryption succeeds on every buffer of bytes that holds the whole of its last block, keeps the
-- buffer's length, yields bytes, and `decrypt` with the same length and round keys (at least 64 of
-- them) gives the first buffer back.
pub decrypt-encrypt :
    (bytes k : List ℕ) (len : ℕ)
    → All IsByte bytes
    → (len + 7) / 8 * 8 ≤ length bytes
    → 64 ≤ length k
    → (out : List ℕ) × (encrypt bytes len k ≡ some out)
      × All IsByte out
      × (length out ≡ length bytes)
      × (decrypt out len k ≡ some bytes)
unfolding encrypt decrypt
decrypt-encrypt bytes k len b h hk =
    let all : Undone (λ b. encrypt_passes 32 b len k) (λ b. decrypt_passes 32 b len k) bytes =
      decrypt_passes-Undone 32 len k bytes hk b h in
    (all.out, all.runs, all.octets, all.kept, all.undo)
