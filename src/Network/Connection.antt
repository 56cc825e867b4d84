-- ===== src/Network/Connection.antt =====
-- src/connection.h and src/connection.cpp: a connection, its queue of messages and its handlers.
-- A message of the queue is the address of an `OutputMessage`. What the network, the timers and the
-- protocol answer are arguments: `error` is the handler's error code, `throws` says that asio
-- throws a `system_error` where the code catches one (before its timer is set), a call is one that
-- the protocol makes. `none` is a null pointer followed or an empty queue popped. The locks make
-- each handler one step. `printf`s and a failure to cancel a timer in `closeSocket` are left out.
pub mod Run
pub mod Laws
pub mod Order
pub mod Closing
use ot_tibia_teste.Common.{
  ℕ, suc, ◌+◌, ◌-◌, ◌/◌, ◌%◌, ◌^◌, max, List, [], ◌∷◌, ◌++◌, Option, none, some, Bool, true, false,
  ◌||◌, ltb, leb, ◌==◌, if◌then◌else◌, ◌>>=◌,
}
use ot_tibia_teste.Common.Words.{u16, u32}
use ot_tibia_teste.Network.Message.{Message, max_size, get_length_header}

-- What the connection hands to the dispatcher.
pub data Task : Type 0 where
  connected : ℕ → Task
  released : ℕ → Task

-- `headers`, `bodies` and `writes` count the asynchronous operations that are under way; `queued`
-- and `written` are the messages put into the queue and given to `async_write`, in order.
pub record Connection : Type 0 where
  pub queue : List ℕ
  pub protocol : Option ℕ
  pub time_connected : ℕ
  pub packets_sent : ℕ
  pub closed : Bool
  pub received_first : Bool
  pub registered : Bool
  pub socket_open : Bool
  pub read_timer : Bool
  pub write_timer : Bool
  pub length : ℕ
  pub headers : ℕ
  pub bodies : ℕ
  pub writes : ℕ
  pub queued : List ℕ
  pub written : List ℕ
  pub tasks : List Task

unfoldable pub new_connection : ℕ → Connection
new_connection now = record {
  queue = [];
  protocol = none;
  time_connected = now;
  packets_sent = 0;
  closed = false;
  received_first = false;
  registered = true;
  socket_open = true;
  read_timer = false;
  write_timer = false;
  length = 0;
  headers = 0;
  bodies = 0;
  writes = 0;
  queued = [];
  written = [];
  tasks = [];
}

-- `messageQueue.empty()`
abbrev pub is_empty : List ℕ → Bool
is_empty [] = true
is_empty (m ∷ rest) = false

unfoldable pub close_socket : Connection → Connection
close_socket c =
    if c.socket_open
    then record c { read_timer = false; write_timer = false; socket_open = false }
    else c

-- `if (protocol) g_dispatcher.addTask(...)`
abbrev release_protocol : Option ℕ → List Task → List Task
release_protocol none tasks = tasks
release_protocol (some p) tasks = tasks ++ released p ∷ []

unfoldable pub close : Bool → Connection → Connection
unfolding close_socket
close force c =
    if c.closed
    then record c { registered = false }
    else let shut = record c {
      registered = false;
      closed = true;
      tasks = release_protocol c.protocol c.tasks;
    } in
      if is_empty c.queue || force then close_socket shut else shut

-- `accept()`: wait for the next header.
unfoldable pub accept : Bool → Connection → Connection
unfolding close
accept throws c =
    if throws then close true c else record c { read_timer = true; headers = suc c.headers }

unfoldable pub accept_protocol : ℕ → Bool → Connection → Connection
unfolding accept
accept_protocol p throws c =
    accept throws (record c { protocol = some p; tasks = c.tasks ++ connected p ∷ [] })

-- `timePassed`: the seconds are time_t, their difference is cut to uint32_t.
abbrev pub time_passed : ℕ → Connection → ℕ
time_passed now c = max 1 (u32 (now + 1 + 2 ^ 64 - c.time_connected))

-- `msg` is the message after the read, `limit` is MAX_PACKETS_PER_SECOND.
unfoldable pub parse_header : ℕ → Bool → Bool → ℕ → Message → Connection → Connection
unfolding close
parse_header limit error throws now msg c =
    let quiet = record c { read_timer = false } in
    if error
    then close true quiet
    else if c.closed
    then quiet
    else let counted = record quiet { packets_sent = u32 (suc c.packets_sent) } in
      if ltb (u32 limit) (counted.packets_sent / time_passed now c)
      then close false counted
      else let renewed =
          if ltb 2 (time_passed now c)
          then record counted { time_connected = now; packets_sent = 0 }
          else counted in
        let size = get_length_header msg in
        if size == 0 || leb (max_size - 16) size
        then close true renewed
        else if throws
        then close true renewed
        else record renewed {
          read_timer = true;
          length = u16 (size + 2);
          bodies = suc renewed.bodies;
        }

unfoldable pub internal_send : Bool → ℕ → Connection → Option Connection
unfolding close
internal_send throws m c = elim c.protocol [
  | none ↦ none
  | some p ↦ some (
      if throws
      then close true c
      else record c { write_timer = true; writes = suc c.writes; written = c.written ++ m ∷ [] })
]

unfoldable pub send : Bool → ℕ → Connection → Option Connection
unfolding internal_send
send throws m c =
    if c.closed
    then some c
    else let longer = record c { queue = c.queue ++ m ∷ []; queued = c.queued ++ m ∷ [] } in
      if is_empty c.queue then internal_send throws m longer else some longer

unfoldable pub on_write_operation : Bool → Bool → Connection → Option Connection
unfolding close internal_send close_socket
on_write_operation error throws c = elim c.queue [
  | [] ↦ none
  | m ∷ rest ↦
      let popped = record c { write_timer = false; queue = rest } in
      if error then some (close true (record popped { queue = [] })) else elim rest [
        | [] ↦ some (if c.closed then close_socket popped else popped)
        | next ∷ more ↦ internal_send throws next popped
      ]
]

unfoldable pub handle_timeout : Bool → Connection → Connection
unfolding close
handle_timeout aborted c = if aborted then c else close true c

-- What a protocol asks of its connection while it handles a message.
pub data Call : Type 0 where
  ask_send : Bool → ℕ → Call
  ask_close : Bool → Call

unfoldable pub answer_call : Call → Connection → Option Connection
unfolding send close
answer_call (ask_send throws m) c = send throws m c
answer_call (ask_close force) c = some (close force c)

unfoldable pub answer_calls : List Call → Connection → Option Connection
answer_calls [] c = some c
answer_calls (call ∷ calls) c = answer_call call c >>= answer_calls calls

-- `made` is what `make_protocol` returns, `calls` are those made in `onRecvFirstMessage` or
-- `onRecvMessage`.
unfoldable pub parse_packet : Bool → Bool → Option ℕ → List Call → Connection → Option Connection
unfolding close accept
parse_packet error throws made calls c =
    let quiet = record c { read_timer = false } in
    let first = record quiet { received_first = true } in
    if error
    then some (close true quiet)
    else if c.closed
    then some quiet
    else if c.received_first
    then elim c.protocol [
      | none ↦ none
      | some p ↦ answer_calls calls quiet >>= λ after. some (accept throws after)
    ]
    else elim c.protocol [
      | none ↦ elim made [
        | none ↦ some (close true first)
        | some p ↦ answer_calls calls (record first { protocol = some p }) >>= λ after.
            some (accept throws after)
      ]
      | some p ↦ answer_calls calls first >>= λ after. some (accept throws after)
    ]
