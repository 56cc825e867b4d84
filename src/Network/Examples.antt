-- ===== src/Network/Examples.antt =====
-- Tests of `Network`, and its theorems at concrete inputs.
use ot_tibia_teste.Network.Protocol.{
  OutputMessage, Settings, pad, on_send_message, on_recv_message, deliver,
}
use ot_tibia_teste.Network.Protocol.Delivery.{output, on_recv_message-on_send_message}
use ot_tibia_teste.Common.{
  ℕ, ◌+◌, ◌%◌, replicate, ◌<◌, ◌≡◌, refl, List, [], ◌∷◌, none, some, true, false, arith,
}
use ot_tibia_teste.Common.Maps.{lookup}
use ot_tibia_teste.Geometry.Position.{position}
use ot_tibia_teste.Network.Admission.{Bans, accept_connection}
use ot_tibia_teste.Network.Admission.Laws.{IsCounted}
use ot_tibia_teste.Network.Message.{
  Message, max_body_length, add_padding_bytes, can_add, load_bytes,
}
use ot_tibia_teste.Network.Message.RoundTrip.{
  Field, byte, word, text, place, total, size, write_fields, read_fields, read_fields-write_fields,
}

abbrev nobody : Bans
nobody = []

nobody-IsCounted : IsCounted nobody
unfolding lookup
nobody-IsCounted ip b e = cc

-- The address 7 after five attempts.
abbrev hasty : Bans
hasty = (7, record { last_attempt = 1000; block_time = 0; count = 5 }) ∷ []

hasty_refused : (accept_connection hasty 1100 7).1 ≡ false
unfolding accept_connection lookup
hasty_refused = refl

unknown : lookup 7 nobody ≡ none
unfolding lookup
unknown = refl

abbrev blank : Message
blank = record { length = 0; position = 8; overrun = false; buffer = λ i. 0 }

abbrev packet : List Field
packet = byte 0x64 ∷ text (b'h' ∷ b'i' ∷ []) ∷ word 4 100000 ∷ place (position 100 200 7) ∷ []

packet_fits : 8 + total packet < max_body_length
unfolding total size
packet_fits = omega arith

read_fields-write_fields_example :
    read_fields packet (record (write_fields packet blank) { position = 8 })
    ≡ (packet, write_fields packet blank)
read_fields-write_fields_example =
    (read_fields-write_fields packet blank refl packet_fits (omega arith)).2

-- A buffer that counts up.
abbrev counting : ℕ → ℕ
counting i = i % 256

abbrev shared_key : List ℕ
shared_key = replicate 64 5

-- Near the end of the buffer there is no room to pad.
pad_refused : (pad (output 6 65477 65475 counting)).message.length ≡ 65477
unfolding pad add_padding_bytes can_add
pad_refused = refl

on_recv_message-on_send_message_example :
    let p : Settings = record {
      raw_messages = false;
      encryption_enabled = true;
      checksum_enabled = false;
      key = shared_key;
    } in
    (sent : OutputMessage) × (m : Message) × (on_send_message p (output 8 11 11 counting)
      ≡ some sent)
    × (on_recv_message p (deliver counting sent) ≡ some (some m))
    × (m.length ≡ 11)
    × (load_bytes m.length m.buffer m.position ≡ load_bytes 11 counting 8)
on_recv_message-on_send_message_example =
    on_recv_message-on_send_message 11 shared_key counting counting (λ i. omega arith) (omega arith)
      (omega arith)
