-- ===== src/Network/Message.antt =====
-- src/networkmessage.h and src/networkmessage.cpp: reading and writing a message buffer.
-- The buffer is a function from offsets to bytes. Positions and lengths are uint16_t. Each
-- operation returns the message after it, a read its value too. `addDouble` and the `addItem`
-- functions, which want floats and the item table, are left out.
pub mod Frame
pub mod Fields
pub mod RoundTrip
use ot_tibia_teste.Common.{
  ℕ, zero, suc, ◌+◌, ◌-◌, ◌*◌, ◌/◌, ◌%◌, ◌^◌, List, [], ◌∷◌, Bool, true, false, not, ◌||◌, ltb, leb,
  ◌==◌, if◌then◌else◌, length,
}
use ot_tibia_teste.Common.Words.{u16}
use ot_tibia_teste.Geometry.Position.{Position, position}

-- `NETWORKMESSAGE_MAXSIZE`
abbrev pub max_size : ℕ
max_size = 65500

abbrev pub initial_buffer_position : ℕ
initial_buffer_position = 8

-- `MAX_BODY_LENGTH`: less the header, the checksum and `XTEA_MULTIPLE`.
abbrev pub max_body_length : ℕ
max_body_length = max_size - 2 - 4 - 8

pub record Message : Type 0 where
  pub length : ℕ
  pub position : ℕ
  pub overrun : Bool
  pub buffer : ℕ → ℕ

-- `reset` gives `info` anew and leaves the buffer.
unfoldable pub reset : Message → Message
reset m = record {
  length = 0;
  position = initial_buffer_position;
  overrun = false;
  buffer = m.buffer;
}

unfoldable pub can_add : Message → ℕ → Bool
can_add m size = ltb (size + m.position) max_body_length

unfoldable pub can_read : Message → ℕ → Bool
can_read m size = not (ltb (m.length + 8) (m.position + size) || leb (max_size - m.position) size)

-- A failed `canRead` sets the flag.
unfoldable pub fail_read : Message → Message
fail_read m = record m { overrun = true }

-- `memcpy` from the buffer: the little-endian number in `n` bytes at `at`.
unfoldable pub load : ℕ → (ℕ → ℕ) → ℕ → ℕ
load zero buffer at = 0
load (suc n) buffer at = buffer at + 256 * load n buffer (suc at)

-- `memcpy` to the buffer of a number of `n` bytes.
unfoldable pub store : ℕ → (ℕ → ℕ) → ℕ → ℕ → ℕ → ℕ
store zero buffer at v = buffer
store (suc n) buffer at v =
    let rest = store n buffer (suc at) (v / 256) in λ i. if i == at then v % 256 else rest i

unfoldable pub load_bytes : ℕ → (ℕ → ℕ) → ℕ → List ℕ
load_bytes zero buffer at = []
load_bytes (suc n) buffer at = buffer at ∷ load_bytes n buffer (suc at)

unfoldable pub store_bytes : List ℕ → (ℕ → ℕ) → ℕ → ℕ → ℕ
store_bytes [] buffer at = buffer
store_bytes (b ∷ bs) buffer at =
    let rest = store_bytes bs buffer (suc at) in λ i. if i == at then b else rest i

pub get_byte : Message → ℕ × Message
unfolding can_read fail_read
get_byte m =
    if can_read m 1
    then (m.buffer m.position, record m { position = u16 (m.position + 1) })
    else (0, fail_read m)

-- `buffer[--info.position]`
pub get_previous_byte : Message → ℕ × Message
get_previous_byte m =
    let before = u16 (m.position + 2 ^ 16 - 1) in (m.buffer before, record m { position = before })

-- `get<T>` for an unsigned type of `n` bytes.
unfoldable pub get : ℕ → Message → ℕ × Message
unfolding can_read fail_read
get n m =
    if can_read m n
    then (load n m.buffer m.position, record m { position = u16 (m.position + n) })
    else (0, fail_read m)

-- The rest of `getString`, after the length is known.
pub get_chars : ℕ → Message → List ℕ × Message
unfolding can_read fail_read
get_chars n m =
    if can_read m n
    then (load_bytes n m.buffer m.position, record m { position = u16 (m.position + n) })
    else ([], fail_read m)

pub get_string : ℕ → Message → List ℕ × Message
unfolding get get_chars
get_string len m = if len == 0 then (let (n, m') = get 2 m in get_chars n m') else get_chars len m

pub get_position : Message → Position × Message
unfolding get get_byte
get_position m =
    let (x, m1) = get 2 m in
    let (y, m2) = get 2 m1 in let (z, m3) = get_byte m2 in (position x y z, m3)

pub add_byte : ℕ → Message → Message
unfolding can_add
add_byte v m =
    if can_add m 1
    then record m {
      buffer = store_bytes (v ∷ []) m.buffer m.position;
      position = u16 (m.position + 1);
      length = u16 (m.length + 1);
    }
    else m

-- `add<T>` for an unsigned type of `n` bytes.
pub add : ℕ → ℕ → Message → Message
unfolding can_add
add n v m =
    if can_add m n
    then record m {
      buffer = store n m.buffer m.position v;
      position = u16 (m.position + n);
      length = u16 (m.length + n);
    }
    else m

-- The `memcpy` of a text and the two sums after it.
pub append_bytes : List ℕ → Message → Message
append_bytes bs m = record m {
  buffer = store_bytes bs m.buffer m.position;
  position = u16 (m.position + length bs);
  length = u16 (m.length + length bs);
}

pub add_bytes : List ℕ → Message → Message
unfolding can_add append_bytes
add_bytes bs m =
    if not (can_add m (length bs)) || ltb 8192 (length bs) then m else append_bytes bs m

pub add_string : List ℕ → Message → Message
unfolding can_add append_bytes
add_string s m =
    if not (can_add m (length s + 2)) || ltb 8192 (length s)
    then m
    else append_bytes s (add 2 (length s) m)

unfoldable pub fill : ℕ → (ℕ → ℕ) → ℕ → ℕ → ℕ
fill zero buffer at = buffer
fill (suc n) buffer at = let rest = fill n buffer (suc at) in λ i. if i == at then 0x33 else rest i

-- The padding counts as length, and the position stays where it was.
unfoldable pub add_padding_bytes : ℕ → Message → Message
unfolding can_add
add_padding_bytes n m =
    if can_add m n
    then record m { buffer = fill n m.buffer m.position; length = u16 (m.length + n) }
    else m

pub add_position : Position → Message → Message
unfolding add add_byte
add_position p m = add_byte p.z (add 2 p.y (add 2 p.x m))

unfoldable pub set_buffer_position : ℕ → Message → Message × Bool
set_buffer_position p m =
    if ltb p (max_size - initial_buffer_position)
    then (record m { position = u16 (p + initial_buffer_position) }, true)
    else (m, false)

-- `buffer[0] | buffer[1] << 8`: disjoint bits, so a sum.
unfoldable pub get_length_header : Message → ℕ
get_length_header m = u16 (m.buffer 0 + m.buffer 1 * 2 ^ 8)
