-- ===== src/Network/Connection/Laws.antt =====
-- src/connection.cpp: a connection's handlers never follow a null pointer or pop an empty queue.
use ot_tibia_teste.Common.{
  ℕ, zero, suc, ◌+◌, ◌≤◌, ◌≡◌, ◌⊎◌, inl, refl, List, [], ◌∷◌, Option, none, some, Bool, true, false,
  ◌>>=◌, arith,
}
use ot_tibia_teste.Network.Message.{Message}
use ot_tibia_teste.Network.Connection.{
  Connection, new_connection, accept_protocol, is_empty, close_socket, close, accept, parse_header,
  internal_send, send, on_write_operation, handle_timeout, Call, ask_send, ask_close, answer_call,
  answer_calls, parse_packet,
}
use ot_tibia_teste.Network.Connection.Run.{
  Event, called, wrote, header_came, packet_came, timed_out, begin, step, run,
}

abbrev pub has_protocol : Option ℕ → Bool
has_protocol none = false
has_protocol (some p) = true

-- One write is under way while the queue waits, unless the connection is closed; one read at most;
-- who sends or was heard has a protocol.
abbrev pub IsSound : Connection → Type 0
IsSound c =
    (c.writes ≡ 0 → is_empty c.queue ≡ false → c.closed ≡ true)
    × (c.writes ≡ 1 → is_empty c.queue ≡ false)
    × (c.writes ≤ 1)
    × (c.headers + c.bodies ≤ 1)
    × (is_empty c.queue ≡ false → has_protocol c.protocol ≡ true)
    × (c.received_first ≡ true → has_protocol c.protocol ≡ false → c.headers + c.bodies ≡ 0)

close-IsSound : (force : Bool) (c : Connection) → IsSound c → IsSound (close force c)
unfolding close close_socket
close-IsSound force c h = ground arith

accept-IsSound :
    (throws : Bool) (c : Connection)
    → c.headers + c.bodies ≡ 0
    → has_protocol c.protocol ≡ true ⊎ c.received_first ≡ false
    → IsSound c
    → IsSound (accept throws c)
unfolding accept close close_socket
accept-IsSound throws c none_yet p h = ground arith

parse_header-IsSound :
    (limit : ℕ) (error throws : Bool) (now : ℕ) (msg : Message) (c : Connection)
    → c.headers + c.bodies ≡ 0
    → has_protocol c.protocol ≡ true ⊎ c.received_first ≡ false
    → IsSound c
    → IsSound (parse_header limit error throws now msg c)
unfolding parse_header close close_socket
parse_header-IsSound limit error throws now msg c idle p h = ground arith

-- A sound connection came out, with the same reads under way and a protocol.
abbrev pub Speaks : ℕ → Option Connection → Type 0
Speaks reads none = ⊥
Speaks reads (some c) =
    IsSound c × (c.headers + c.bodies ≡ reads) × (has_protocol c.protocol ≡ true)

pub send-Speaks :
    (throws : Bool) (m : ℕ) (c : Connection)
    → has_protocol c.protocol ≡ true
    → IsSound c
    → Speaks (c.headers + c.bodies) (send throws m c)
unfolding send internal_send close close_socket
send-Speaks throws m c p h = ground arith

pub answer_call-Speaks :
    (call : Call) (c : Connection)
    → has_protocol c.protocol ≡ true
    → IsSound c
    → Speaks (c.headers + c.bodies) (answer_call call c)
unfolding answer_call close close_socket
answer_call-Speaks (ask_send throws m) c p h = send-Speaks throws m c p h
answer_call-Speaks (ask_close force) c p h = (close-IsSound force c h, ground arith, ground arith)

bind-Speaks :
    {reads : ℕ} (r : Option Connection) (f : Connection → Option Connection)
    → Speaks reads r
    → ((c : Connection)
        → IsSound c
        → c.headers + c.bodies ≡ reads
        → has_protocol c.protocol ≡ true
        → Speaks reads (f c))
    → Speaks reads (r >>= f)
bind-Speaks none f h k = h
bind-Speaks (some c) f h k = k c h.0 h.1 h.2

answer_calls-Speaks :
    (calls : List Call) (c : Connection)
    → has_protocol c.protocol ≡ true
    → IsSound c
    → Speaks (c.headers + c.bodies) (answer_calls calls c)
unfolding answer_calls
answer_calls-Speaks [] c p h = (h, refl, p)
answer_calls-Speaks (call ∷ calls) c p h =
    bind-Speaks (answer_call call c) (answer_calls calls) (answer_call-Speaks call c p h)
      λ after sound reads speaks. rw (← reads) (answer_calls-Speaks calls after speaks sound)

-- A sound connection came out.
abbrev pub Sound : Option Connection → Type 0
Sound none = ⊥
Sound (some c) = IsSound c

on_write_operation-Sound :
    (error throws : Bool) (c : Connection)
    → c.writes ≡ 0
    → IsSound (record c { writes = 1 })
    → Sound (on_write_operation error throws c)
unfolding on_write_operation internal_send close close_socket
on_write_operation-Sound error throws c e h = ground arith

accept-after-Sound :
    (throws : Bool) (r : Option Connection)
    → Speaks 0 r
    → Sound (r >>= λ after. some (accept throws after))
accept-after-Sound throws none gone = gone
accept-after-Sound throws (some after) s = accept-IsSound throws after s.1 (inl s.2) s.0

-- The handler goes on after the protocol's calls.
answered-Sound :
    (throws : Bool) (calls : List Call) (c : Connection)
    → c.headers + c.bodies ≡ 0
    → has_protocol c.protocol ≡ true
    → IsSound c
    → Sound (answer_calls calls c >>= λ after. some (accept throws after))
answered-Sound throws calls c idle p h =
    accept-after-Sound throws (answer_calls calls c) (rw (← idle) (answer_calls-Speaks calls c p h))

parse_packet-Sound :
    (error throws : Bool) (made : Option ℕ) (calls : List Call) (c : Connection)
    → c.headers + c.bodies ≡ 0
    → has_protocol c.protocol ≡ true ⊎ c.received_first ≡ false
    → IsSound c
    → Sound (parse_packet error throws made calls c)
unfolding parse_packet close close_socket
parse_packet-Sound error throws none calls c idle p h = ground (
  arith,
  answered-Sound throws calls (record c { read_timer = false }),
  answered-Sound throws calls (record c { read_timer = false; received_first = true }),
)
parse_packet-Sound error throws (some new) calls c idle p h = ground (
  arith,
  answered-Sound throws calls (record c { read_timer = false }),
  answered-Sound throws calls (record c { read_timer = false; received_first = true }),
  answered-Sound throws calls
      (record c { read_timer = false; received_first = true; protocol = some new }),
)

weaken : (reads : ℕ) (r : Option Connection) → Speaks reads r → Sound r
weaken reads none h = h
weaken reads (some c) h = h.0

-- A handler runs if its operation is under way.
pending-Sound :
    (c : Connection) (count : ℕ) (f : ℕ → Option Connection)
    → IsSound c
    → ((n : ℕ) → count ≡ suc n → Sound (f n))
    → Sound (elim count [ zero ↦ some c | suc n ↦ f n ])
pending-Sound c zero f h k = h
pending-Sound c (suc n) f h k = k n refl

bind-Sound :
    (r : Option Connection) (f : Connection → Option Connection)
    → Sound r
    → ((c : Connection) → IsSound c → Sound (f c))
    → Sound (r >>= f)
bind-Sound none f h k = h
bind-Sound (some c) f h k = k c h

pub step-Sound : (limit : ℕ) (c : Connection) (e : Event) → IsSound c → Sound (step limit c e)
unfolding step answer_call handle_timeout close close_socket
step-Sound limit c (called (ask_close force)) h = close-IsSound force c h
step-Sound limit c (called (ask_send throws m)) h =
    ground (arith, weaken (c.headers + c.bodies) (send throws m c), send-Speaks throws m c)
step-Sound limit c (wrote error throws) h = pending-Sound c c.writes _ h λ n e.
    on_write_operation-Sound error throws (record c { writes = n }) (ground arith) (ground arith)
step-Sound limit c (header_came error throws now msg) h = pending-Sound c c.headers _ h λ n e.
    parse_header-IsSound limit error throws now msg (record c { headers = n }) (ground arith)
      (ground arith) (ground arith)
step-Sound limit c (packet_came error throws made calls) h = pending-Sound c c.bodies _ h λ n e.
    parse_packet-Sound error throws made calls (record c { bodies = n }) (ground arith)
      (ground arith) (ground arith)
step-Sound limit c (timed_out aborted) h = ground arith

run-Sound : (limit : ℕ) (c : Connection) (es : List Event) → IsSound c → Sound (run limit c es)
unfolding run
run-Sound limit c [] h = h
run-Sound limit c (e ∷ es) h =
    bind-Sound (step limit c e) (λ after. run limit after es) (step-Sound limit c e h)
      λ after sound. run-Sound limit after es sound

pub came_out : (r : Option Connection) → Sound r → (c : Connection) × (r ≡ some c) × IsSound c
came_out none s = absurd s
came_out (some c) s = (c, refl, s)

pub begin-IsSound : (first : Option ℕ) (throws : Bool) (now : ℕ) → IsSound (begin first throws now)
unfolding accept accept_protocol new_connection close close_socket
begin-IsSound none throws now = ground arith
begin-IsSound (some p) throws now = ground arith

-- Whatever is sent, closed, timed out, written and received, in whatever order, after a connection
-- began to read, with or without a protocol that speaks first, every handler runs to its end: no null
-- pointer is followed and no empty queue is popped. At most one write and one read are under way then,
-- and a queue that waits is being written or belongs to a closed connection.
pub run-IsSound :
    (limit now : ℕ) (first : Option ℕ) (throws : Bool) (es : List Event)
    → (c : Connection) × (run limit (begin first throws now) es ≡ some c) × IsSound c
run-IsSound limit now first throws es =
    came_out (run limit (begin first throws now) es)
      (run-Sound limit (begin first throws now) es (begin-IsSound first throws now))
