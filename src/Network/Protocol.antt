-- ===== src/Network/Protocol.antt =====
-- src/protocol.cpp, src/outputmessage.h: the headers and the encryption of messages. Bytes go to and
-- come from the cipher as lists; a fault of the cipher is `none`. RSA, which a library computes, and
-- the pool of messages are left out.
pub mod Delivery
use ot_tibia_teste.Common.{
  ℕ, suc, ◌+◌, ◌-◌, ◌*◌, ◌/◌, ◌%◌, ◌^◌, List, Option, none, some, Bool, true, false, not, ltb, ◌==◌,
  if◌then◌else◌, ◌>>=◌,
}
use ot_tibia_teste.Common.Words.{u16}
use ot_tibia_teste.Crypto.Xtea.{encrypt, decrypt}
use ot_tibia_teste.Crypto.Checksum.{adler_checksum}
use ot_tibia_teste.Network.Message.{
  Message, load, store, load_bytes, store_bytes, get, add_padding_bytes,
}

-- `start` is `outputBufferStart`, which begins at `INITIAL_BUFFER_POSITION`.
pub record OutputMessage : Type 0 where
  pub message : Message
  pub start : ℕ

-- `add_header` of a number of `n` bytes; the assertion is that `start` is not below `n`.
unfoldable pub add_header : ℕ → ℕ → OutputMessage → OutputMessage
add_header n v o = record {
  start = o.start - n;
  message = record o.message {
    buffer = store n o.message.buffer (o.start - n) v;
    length = u16 (o.message.length + n);
  };
}

unfoldable pub write_message_length : OutputMessage → OutputMessage
unfolding add_header
write_message_length o = add_header 2 o.message.length o

unfoldable pub add_crypto_header : Bool → OutputMessage → OutputMessage
unfolding add_header write_message_length
add_crypto_header add_checksum o =
    let output = load_bytes o.message.length o.message.buffer o.start in
    write_message_length (if add_checksum then add_header 4 (adler_checksum output) o else o)

unfoldable pub pad : OutputMessage → OutputMessage
unfolding add_padding_bytes
pad o =
    let padding_bytes = o.message.length % 8 in
    if padding_bytes == 0
    then o
    else record o { message = add_padding_bytes (8 - padding_bytes) o.message }

-- `XTEA_encrypt`. The cipher works on whole blocks of 8 bytes.
unfoldable pub xtea_encrypt : List ℕ → OutputMessage → Option OutputMessage
unfolding pad
xtea_encrypt key o =
    let m = (pad o).message in
    encrypt (load_bytes ((m.length + 7) / 8 * 8) m.buffer o.start) m.length key >>= λ out.
    some (record o { message = record m { buffer = store_bytes out m.buffer o.start } })

-- What `XTEA_decrypt` does after the cipher.
unfoldable pub take_inner : Message → Message × Bool
unfolding get
take_inner m =
    let (inner_length, m') = get 2 m in
    if ltb m'.length (inner_length + 4)
    then (m', false)
    else (record m' { length = inner_length }, true)

-- `XTEA_decrypt`. The length is promoted to int before 2 is taken away.
unfoldable pub xtea_decrypt : List ℕ → Message → Option (Message × Bool)
unfolding take_inner
xtea_decrypt key m =
    if not ((m.length + 2 ^ 16 - 2) % 8 == 0)
    then some (m, false)
    else decrypt (load_bytes (m.length - 2) m.buffer m.position) (m.length - 2) key >>= λ out.
        some (take_inner (record m { buffer = store_bytes out m.buffer m.position }))

-- What a protocol keeps.
pub record Settings : Type 0 where
  pub raw_messages : Bool
  pub encryption_enabled : Bool
  pub checksum_enabled : Bool
  pub key : List ℕ

unfoldable pub on_send_message : Settings → OutputMessage → Option OutputMessage
unfolding write_message_length xtea_encrypt add_crypto_header
on_send_message p o =
    if p.raw_messages
    then some o
    else if not p.encryption_enabled
    then some (write_message_length o)
    else xtea_encrypt p.key (write_message_length o) >>= λ sealed.
        some (add_crypto_header p.checksum_enabled sealed)

-- `onRecvMessage`: the message that it gives to `parsePacket`, if it does.
unfoldable pub on_recv_message : Settings → Message → Option (Option Message)
unfolding xtea_decrypt
on_recv_message p m =
    if not p.encryption_enabled
    then some (some m)
    else xtea_decrypt p.key m >>= λ r. some (if r.1 then some r.0 else none)

-- What `Connection::parseHeader` and the read after it make of the bytes that were sent: the header
-- is the size, and the body stands at offset 2 of a buffer.
unfoldable pub deliver : (ℕ → ℕ) → OutputMessage → Message
deliver buffer o =
    let size = load 2 o.message.buffer o.start in
    record {
      length = u16 (size + 2);
      position = 2;
      overrun = false;
      buffer = store_bytes (load_bytes size o.message.buffer (o.start + 2)) buffer 2;
    }
