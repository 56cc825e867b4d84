-- ===== src/Network/Connection/Run.antt =====
-- The events of a connection (src/connection.cpp), one after another.
use ot_tibia_teste.Common.{ℕ, zero, suc, List, [], ◌∷◌, Option, none, some, Bool, ◌>>=◌}
use ot_tibia_teste.Network.Message.{Message}
use ot_tibia_teste.Network.Connection.{
  Connection, new_connection, accept, accept_protocol, Call, ask_send, ask_close, answer_call,
  on_write_operation, parse_header, parse_packet, handle_timeout,
}

-- `ServicePort::onAccept` begins to read, with a protocol that speaks first or without.
abbrev pub begin : Option ℕ → Bool → ℕ → Connection
begin none throws now = accept throws (new_connection now)
begin (some p) throws now = accept_protocol p throws (new_connection now)

-- A call of the connection's protocol or of the server, or the end of an asynchronous operation.
pub data Event : Type 0 where
  called : Call → Event
  wrote : Bool → Bool → Event
  header_came : Bool → Bool → ℕ → Message → Event
  packet_came : Bool → Bool → Option ℕ → List Call → Event
  timed_out : Bool → Event

-- Only a protocol sends. A handler runs if its operation is under way, and never otherwise.
unfoldable pub step : ℕ → Connection → Event → Option Connection
unfolding answer_call on_write_operation parse_header parse_packet handle_timeout
step limit c (called (ask_close force)) = answer_call (ask_close force) c
step limit c (called (ask_send throws m)) = elim c.protocol [
  | none ↦ some c
  | some p ↦ answer_call (ask_send throws m) c
]
step limit c (wrote error throws) = elim c.writes [
  | zero ↦ some c
  | suc n ↦ on_write_operation error throws (record c { writes = n })
]
step limit c (header_came error throws now msg) = elim c.headers [
  | zero ↦ some c
  | suc n ↦ some (parse_header limit error throws now msg (record c { headers = n }))
]
step limit c (packet_came error throws made calls) = elim c.bodies [
  | zero ↦ some c
  | suc n ↦ parse_packet error throws made calls (record c { bodies = n })
]
step limit c (timed_out aborted) = some (handle_timeout aborted c)

unfoldable pub run : ℕ → Connection → List Event → Option Connection
unfolding step
run limit c [] = some c
run limit c (e ∷ es) = step limit c e >>= λ after. run limit after es
