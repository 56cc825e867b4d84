-- ===== src/Network/Talks.antt =====
-- Tests of `Network.Connection`, and its theorems at concrete inputs.
use ot_tibia_teste.Common.{
  ℕ, ◌+◌, ◌<◌, ◌≤◌, ◌/◌, ◌≡◌, ◌⊎◌, refl, List, [], ◌∷◌, ◌++◌, Option, none, some, true, false,
  arith, replicate, suc, ◌==◌, if◌then◌else◌,
}
use ot_tibia_teste.Common.Words.{u32}
use ot_tibia_teste.Network.Message.{Message, max_size, get_length_header}
use ot_tibia_teste.Network.Connection.{
  Connection, new_connection, accept, close, close_socket, send, internal_send, ask_send, ask_close,
  answer_call, answer_calls, parse_header, parse_packet, on_write_operation, time_passed,
}
use ot_tibia_teste.Network.Connection.Run.{
  Event, called, wrote, header_came, packet_came, begin, step, run,
}
use ot_tibia_teste.Network.Connection.Laws.{IsSound, run-IsSound}
use ot_tibia_teste.Network.Connection.Order.{waiting, run-in_order}
use ot_tibia_teste.Network.Connection.Closing.{close-drain, parse_header_lem}

-- A header that announces five bytes.
abbrev header : Message
header = record { length = 0; position = 8; overrun = false; buffer = λ i. if i == 0 then 5 else 0 }

-- A packet that makes its protocol, which answers with three messages; the first is written, and the
-- connection is closed with the others in its queue.
abbrev talk : List Event
talk =
    header_came false false 100 header
    ∷ packet_came false false (some 9) (ask_send false 1 ∷ ask_send false 2 ∷ ask_send false 3 ∷ [])
    ∷ wrote false false
    ∷ called (ask_close false)
    ∷ []

abbrev listening : Connection
listening = begin none false 100

abbrev written_by : Option Connection → List ℕ
written_by none = []
written_by (some c) = c.written

-- Both messages that were still waiting are written after the connection was closed.
talk_written :
    written_by (run 25 listening (talk ++ wrote false false ∷ wrote false false ∷ []))
    ≡ 1 ∷ 2 ∷ 3 ∷ []
unfolding run step accept new_connection close close_socket send internal_send answer_call
    answer_calls parse_header parse_packet on_write_operation get_length_header
talk_written = refl

run-IsSound_example : (c : Connection) × (run 25 (begin none false 100) talk ≡ some c) × IsSound c
run-IsSound_example = run-IsSound 25 100 none false talk

abbrev talked : Connection
talked = record listening {
  queue = 2 ∷ 3 ∷ [];
  protocol = some 9;
  packets_sent = 1;
  received_first = true;
  write_timer = true;
  length = 7;
  headers = 1;
  writes = 1;
  queued = 1 ∷ 2 ∷ 3 ∷ [];
  written = 1 ∷ 2 ∷ [];
}

talk_ran : run 25 (begin none false 100) talk ≡ some (close false talked)
unfolding run step accept new_connection close close_socket send internal_send answer_call
    answer_calls parse_header parse_packet on_write_operation get_length_header
talk_ran = refl

run-in_order_example :
    (lost : List ℕ) × ((close false talked).queued
      ≡ (close false talked).written ++ (waiting (close false talked) ++ lost))
    × ((close false talked).closed ≡ false → lost ≡ [])
run-in_order_example = run-in_order 25 100 none false talk (close false talked) talk_ran

talked_open : talked.closed ≡ false
unfolding accept new_connection close
talked_open = refl

talked-IsSound : IsSound talked
unfolding accept new_connection close
talked-IsSound = ground arith

close-drain_example :
    ((close false talked).socket_open ≡ talked.socket_open)
    × ((d : Connection) × (run 25 (close false talked) (replicate 2 (wrote false false)) ≡ some d)
        × (d.written ≡ talked.written ++ 3 ∷ [])
        × (d.queue ≡ [])
        × (d.socket_open ≡ false))
close-drain_example = close-drain 25 2 (3 ∷ []) talked talked-IsSound talked_open refl

parse_header_lem_example :
    let d = parse_header 25 false false 100 header talked in
    ((d.closed ≡ true) × (d.bodies ≡ talked.bodies))
    ⊎ ((d.closed ≡ false)
        × (d.bodies ≡ suc talked.bodies)
        × (d.length ≡ get_length_header header + 2)
        × (2 < d.length)
        × (d.length < max_size)
        × (u32 (suc talked.packets_sent) / time_passed 100 talked ≤ u32 25))
parse_header_lem_example = parse_header_lem 25 false false 100 header talked talked_open
