-- ===== src/Network/Protocol/Delivery.antt =====
-- src/protocol.cpp: what one side sends encrypted, the other side reads.
use ot_tibia_teste.Common.{
  ℕ, zero, suc, ◌+◌, ◌-◌, ◌*◌, ◌/◌, ◌%◌, ◌^◌, ◌≤◌, ◌<◌, ◌≡◌, refl, sym, ap, ◌∙◌, List, some, true,
  false, ltb, ◌==◌, arith, All, length, Bool-cases, inl, inr,
}
use ot_tibia_teste.Common.Words.{u16}
use ot_tibia_teste.Crypto.Xtea.{encrypt, decrypt}
use ot_tibia_teste.Crypto.Xtea.Laws.{IsByte, decrypt-encrypt}
use ot_tibia_teste.Network.Message.{
  Message, load, store, load_bytes, store_bytes, get, can_read, can_add, add_padding_bytes, fill,
  max_body_length,
}
use ot_tibia_teste.Network.Message.Frame.{
  Buffer, load-store, load-store_bytes, load_bytes-cong, load-cong,
}
use ot_tibia_teste.Network.Protocol.{
  OutputMessage, Settings, add_header, write_message_length, add_crypto_header, pad, xtea_encrypt,
  take_inner, xtea_decrypt, on_send_message, on_recv_message, deliver,
}

-- The buffers are arrays of bytes.
abbrev pub IsBuffer : Buffer → Type 0
IsBuffer b = (i : ℕ) → b i < 2 ^ 8

load_bytes-All : (n : ℕ) (b : Buffer) (at : ℕ) → IsBuffer b → All IsByte (load_bytes n b at)
unfolding load_bytes
load_bytes-All zero b at h = tt
load_bytes-All (suc n) b at h = (h at, load_bytes-All n b (suc at) h)

length-load_bytes : (n : ℕ) (b : Buffer) (at : ℕ) → length (load_bytes n b at) ≡ n
unfolding load_bytes
length-load_bytes zero b at = refl
length-load_bytes (suc n) b at = omega (arith, length-load_bytes n b (suc at))

store-IsBuffer : (n : ℕ) (b : Buffer) (at v : ℕ) → IsBuffer b → IsBuffer (store n b at v)
unfolding store
store-IsBuffer zero b at v h i = h i
store-IsBuffer (suc n) b at v h i = ground (arith, store-IsBuffer n b (suc at) (v / 256) h i)

fill-IsBuffer : (n : ℕ) (b : Buffer) (at : ℕ) → IsBuffer b → IsBuffer (fill n b at)
unfolding fill
fill-IsBuffer zero b at h i = h i
fill-IsBuffer (suc n) b at h i = ground (arith, fill-IsBuffer n b (suc at) h i)

fill-below : (n : ℕ) (b : Buffer) (at i : ℕ) → i < at → fill n b at i ≡ b i
unfolding fill
fill-below zero b at i h = refl
fill-below (suc n) b at i h = ground (arith, fill-below n b (suc at) i)

store-above : (n : ℕ) (b : Buffer) (at v i : ℕ) → at + n ≤ i → store n b at v i ≡ b i
unfolding store
store-above zero b at v i h = refl
store-above (suc n) b at v i h = ground (arith, store-above n b (suc at) (v / 256) i)

later : (a j : ℕ) → suc a + j ≡ a + suc j
later a j = omega arith

split_agree :
    (n : ℕ) (b c : Buffer) (at to : ℕ)
    → ((j : ℕ) → j < suc n → b (at + j) ≡ c (to + j))
    → (b at ≡ c to) × ((j : ℕ) → j < n → b (suc at + j) ≡ c (suc to + j))
split_agree n b c at to h =
    let here : at + 0 ≡ at = omega arith in
    let there : to + 0 ≡ to = omega arith in
    (
      ap b (sym here) ∙ h 0 (omega arith) ∙ ap c there,
      λ j less. ap b (later at j) ∙ h (suc j) (omega arith) ∙ ap c (sym (later to j)),
    )

-- A copy of so many bytes to another place.
moved :
    (n : ℕ) (b r : Buffer) (from to j : ℕ)
    → j < n
    → store_bytes (load_bytes n b from) r to (to + j) ≡ b (from + j)
unfolding load_bytes store_bytes
moved zero b r from to j h = absurd (omega arith)
moved (suc n) b r from to zero h =
    let here : to + 0 ≡ to = omega arith in
    let there : from + 0 ≡ from = omega arith in rw (here, there) (ground arith)
moved (suc n) b r from to (suc j) h =
    rw (← later to j, ← later from j)
      (ground (arith, moved n b r (suc from) (suc to) j (omega arith)))

load-shift :
    (n : ℕ) (b c : Buffer) (at to : ℕ)
    → ((j : ℕ) → j < n → b (at + j) ≡ c (to + j))
    → load n b at ≡ load n c to
unfolding load
load-shift zero b c at to h = refl
load-shift (suc n) b c at to h =
    let (head, tail) = split_agree n b c at to h in
    cc (head, load-shift n b c (suc at) (suc to) tail)

load_bytes-shift :
    (n : ℕ) (b c : Buffer) (at to : ℕ)
    → ((j : ℕ) → j < n → b (at + j) ≡ c (to + j))
    → load_bytes n b at ≡ load_bytes n c to
unfolding load_bytes
load_bytes-shift zero b c at to h = refl
load_bytes-shift (suc n) b c at to h =
    let (head, tail) = split_agree n b c at to h in
    cc (head, load_bytes-shift n b c (suc at) (suc to) tail)

-- The receiver's message of so many bytes, out of a buffer, and what is read from it.
abbrev received : ℕ → Buffer → Buffer → Message
received size b r = record {
  length = size + 2;
  position = 2;
  overrun = false;
  buffer = store_bytes (load_bytes size b 6) r 2;
}

get-received :
    (size : ℕ) (b r : Buffer)
    → 2 ≤ size
    → size < 65490
    → get 2 (received size b r) ≡ (load 2 b 6, record (received size b r) { position = 4 })
unfolding get can_read
get-received size b r some_size few =
    let read : load 2 (store_bytes (load_bytes size b 6) r 2) 2 ≡ load 2 b 6 =
      load-shift 2 (store_bytes (load_bytes size b 6) r 2) b 2 6
        (λ j less. moved size b r 6 2 j (omega arith)) in
    let fits : can_read (received size b r) 2 ≡ true = ground arith in rw (fits, read) refl

-- What the receiver has after the cipher.
take_inner_lem :
    (size n : ℕ) (b r : Buffer)
    → load 2 b 6 ≡ n
    → n + 2 ≤ size
    → size < 65490
    → take_inner (received size b r)
      ≡ (record (received size b r) { position = 4; length = n }, true)
unfolding take_inner
take_inner_lem size n b r head enough few =
    let fits : ltb (size + 2) (n + 4) ≡ false = ground arith in
    rw (get-received size b r (omega arith) few, head, fits) refl

body_lem :
    (size n : ℕ) (body : List ℕ) (b r : Buffer)
    → load_bytes n b 8 ≡ body
    → n + 2 ≤ size
    → load_bytes n (store_bytes (load_bytes size b 6) r 2) 4 ≡ body
body_lem size n body b r tail enough =
    load_bytes-shift n (store_bytes (load_bytes size b 6) r 2) b 4 8 (λ j less.
      (let here : 2 + (2 + j) ≡ 4 + j = omega arith in
        let there : 6 + (2 + j) ≡ 8 + j = omega arith in
        rw (← here, ← there) (moved size b r 6 2 (2 + j) (omega arith))))
    ∙ tail

-- A message of `n` bytes of text, which stand from offset 8 on, and `size` in all, from `start` on.
abbrev pub output : ℕ → ℕ → ℕ → Buffer → OutputMessage
output start size n b = record {
  start = start;
  message = record { length = size; position = 8 + n; overrun = false; buffer = b };
}

-- What `XTEA_encrypt` has after the padding: whole blocks, the length of the text, and the text.
abbrev IsPadded : ℕ → Buffer → ℕ → Buffer → Type 0
IsPadded n b size c =
    (size % 8 ≡ 0)
    × (n + 2 ≤ size)
    × (size < n + 10)
    × IsBuffer c
    × (load 2 c 6 ≡ n)
    × (load_bytes n c 8 ≡ load_bytes n b 8)

pad_lem :
    (n : ℕ) (b : Buffer)
    → IsBuffer b
    → n ≤ 65470
    → (size : ℕ) × (c : Buffer) × (pad (output 6 (n + 2) n (store 2 b 6 n)) ≡ output 6 size n c)
      × IsPadded n b size c
unfolding pad add_padding_bytes can_add
pad_lem n b octets few =
    let length_kept : load 2 (store 2 b 6 n) 6 ≡ n = load-store 2 b 6 n (omega arith) in
    let text_kept : load_bytes n (store 2 b 6 n) 8 ≡ load_bytes n b 8 =
      load_bytes-cong n (store 2 b 6 n) b 8 (λ i lo hi. store-above 2 b 6 n i lo) in
    elim (Bool-cases ((n + 2) % 8 == 0)) [
      | inl whole ↦ (
        n + 2,
        store 2 b 6 n,
        rw whole refl,
        (
          ground arith,
          omega arith,
          omega arith,
          store-IsBuffer 2 b 6 n octets,
          length_kept,
          text_kept,
        ),
      )
      | inr part ↦
          let k = 8 - (n + 2) % 8 in
          let c = fill k (store 2 b 6 n) (8 + n) in
          let room : ltb (k + (8 + n)) max_body_length ≡ true = ground arith in
          let exact : u16 (n + 2 + k) ≡ n + 2 + k = omega arith in
          (
            n + 2 + k,
            c,
            rw (part, room, exact) refl,
            (
              ground arith,
              omega arith,
              ground arith,
              fill-IsBuffer k (store 2 b 6 n) (8 + n) (store-IsBuffer 2 b 6 n octets),
              load-cong 2 c (store 2 b 6 n) 6
                    (λ i lo hi. fill-below k (store 2 b 6 n) (8 + n) i (omega arith))
                  ∙ length_kept,
              load_bytes-cong n c (store 2 b 6 n) 8
                    (λ i lo hi. fill-below k (store 2 b 6 n) (8 + n) i (omega arith))
                  ∙ text_kept,
            ),
          )
    ]

-- What the cipher is given on one side comes out on the other.
abbrev arrived : ℕ → List ℕ → Buffer → Message
arrived size out r = record {
  length = size + 2;
  position = 2;
  overrun = false;
  buffer = store_bytes out r 2;
}

deliver_lem :
    (n size : ℕ) (out : List ℕ) (c r : Buffer)
    → length out ≡ size
    → size < 65490
    → deliver r (add_crypto_header false (output 6 size n (store_bytes out c 6)))
      ≡ arrived size out r
unfolding deliver add_crypto_header write_message_length add_header
deliver_lem n size out c r kept few =
    let d = store_bytes out c 6 in
    let header : load 2 (store 2 d 4 size) 4 ≡ size = load-store 2 d 4 size (omega arith) in
    let body : load_bytes size (store 2 d 4 size) 6 ≡ out =
      load_bytes-cong size (store 2 d 4 size) d 6 (λ i lo hi. store-above 2 d 4 size i lo)
      ∙ rw (← kept) (load-store_bytes out c 6) in
    let exact : u16 (size + 2) ≡ size + 2 = omega arith in rw (header, body, exact) refl

decrypt_lem :
    (size n : ℕ) (out key : List ℕ) (c r : Buffer)
    → length out ≡ size
    → size % 8 ≡ 0
    → size < 65490
    → n + 2 ≤ size
    → load 2 c 6 ≡ n
    → decrypt out size key ≡ some (load_bytes size c 6)
    → xtea_decrypt key (arrived size out r)
      ≡ some (record (received size c (store_bytes out r 2)) { position = 4; length = n }, true)
unfolding xtea_decrypt
decrypt_lem size n out key c r kept blocks few enough head undone =
    let whole : ((size + 2 + 2 ^ 16 - 2) % 8 == 0) ≡ true = ground arith in
    let less : size + 2 - 2 ≡ size = omega arith in
    let read : load_bytes size (store_bytes out r 2) 2 ≡ out =
      rw (← kept) (load-store_bytes out r 2) in
    rw (whole, less, read, undone, take_inner_lem size n c (store_bytes out r 2) head enough few)
      refl

encrypt_lem :
    (n size : ℕ) (key out : List ℕ) (b c : Buffer)
    → pad (output 6 (n + 2) n b) ≡ output 6 size n c
    → size % 8 ≡ 0
    → encrypt (load_bytes size c 6) size key ≡ some out
    → xtea_encrypt key (output 6 (n + 2) n b) ≡ some (output 6 size n (store_bytes out c 6))
unfolding xtea_encrypt
encrypt_lem n size key out b c padded blocks done =
    let whole : (size + 7) / 8 * 8 ≡ size = omega arith in rw (padded, whole, done) refl

-- What is sent with encryption and without a checksum, and delivered whatever the receiver's buffer
-- held: the receiver, who has the same key, decrypts it, and reads the text. The text has at most
-- 65470 bytes, for which there is room to pad.
pub on_recv_message-on_send_message :
    (n : ℕ) (key : List ℕ) (b r : Buffer)
    → IsBuffer b
    → n ≤ 65470
    → 64 ≤ length key
    → let p : Settings = record {
      raw_messages = false;
      encryption_enabled = true;
      checksum_enabled = false;
      key = key;
    } in
      (sent : OutputMessage) × (m : Message) × (on_send_message p (output 8 n n b) ≡ some sent)
      × (on_recv_message p (deliver r sent) ≡ some (some m))
      × (m.length ≡ n)
      × (load_bytes m.length m.buffer m.position ≡ load_bytes n b 8)
unfolding on_send_message on_recv_message write_message_length add_header
on_recv_message-on_send_message n key b r octets few hk =
    let (size, c, padded, (blocks, enough, below, c_octets, head, text)) = pad_lem n b octets few in
    let (out, done, out_octets, kept, undone) =
      decrypt-encrypt (load_bytes size c 6) key size (load_bytes-All size c 6 c_octets)
        (omega (arith, blocks, length-load_bytes size c 6)) hk in
    let exact : u16 (n + 2) ≡ n + 2 = omega arith in
    let whole : length out ≡ size = kept ∙ length-load_bytes size c 6 in
    (
      add_crypto_header false (output 6 size n (store_bytes out c 6)),
      record (received size c (store_bytes out r 2)) { position = 4; length = n },
      rw (exact, encrypt_lem n size key out (store 2 b 6 n) c padded blocks done) refl,
      rw
          (
            deliver_lem n size out c r whole (omega arith),
            decrypt_lem size n out key c r whole blocks (omega arith) enough head undone,
          )
          refl,
      refl,
      body_lem size n (load_bytes n b 8) c (store_bytes out r 2) text enough,
    )
