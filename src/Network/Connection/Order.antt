-- ===== src/Network/Connection/Order.antt =====
-- src/connection.cpp: messages are written in the order in which they were sent.
use mathlib.Core.List.{append_assoc, append-nil}
use ot_tibia_teste.Common.{
  ℕ, zero, suc, ◌+◌, ◌≡◌, refl, subst, List, [], ◌∷◌, ◌++◌, Option, none, some, Bool, true, false,
  ◌>>=◌, ◌==◌, if◌then◌else◌, arith, get_or,
}
use ot_tibia_teste.Network.Message.{Message}
use ot_tibia_teste.Network.Connection.{
  Connection, new_connection, accept_protocol, close_socket, close, accept, parse_header,
  internal_send, send, on_write_operation, handle_timeout, Call, ask_send, ask_close, answer_call,
  answer_calls, parse_packet,
}
use ot_tibia_teste.Network.Connection.Run.{
  Event, called, wrote, header_came, packet_came, timed_out, begin, step, run,
}
use ot_tibia_teste.Network.Connection.Laws.{
  begin-IsSound, IsSound, has_protocol, Speaks, Sound, answer_call-Speaks, step-Sound,
}

abbrev pub tail : List ℕ → List ℕ
tail [] = []
tail (m ∷ rest) = rest

-- The messages of the queue that no write was begun for: the first is being written.
abbrev pub waiting : Connection → List ℕ
waiting c = if c.writes == 0 then c.queue else tail c.queue

-- What was queued is written, or waits, or was lost with the connection, in this order.
abbrev pub IsLost : List ℕ → Connection → Type 0
IsLost lost c = (c.queued ≡ c.written ++ (waiting c ++ lost)) × (c.closed ≡ false → lost ≡ [])

close-IsLost :
    (force : Bool) (c : Connection) (lost : List ℕ) → IsLost lost c → IsLost lost (close force c)
unfolding close close_socket
close-IsLost force c lost h = ground arith

accept-IsLost :
    (throws : Bool) (c : Connection) (lost : List ℕ) → IsLost lost c → IsLost lost (accept throws c)
unfolding accept close close_socket
accept-IsLost throws c lost h = ground arith

parse_header-IsLost :
    (limit : ℕ) (error throws : Bool) (now : ℕ) (msg : Message) (c : Connection) (lost : List ℕ)
    → IsLost lost c
    → IsLost lost (parse_header limit error throws now msg c)
unfolding parse_header close close_socket
parse_header-IsLost limit error throws now msg c lost h = ground arith

-- The same after an operation, if it came to its end.
abbrev pub Lost : List ℕ → Option Connection → Type 0
Lost lost none = Unit
Lost lost (some c) = IsLost lost c

-- The message goes behind all others of an open connection.
queued_behind :
    (written waiting lost : List ℕ) (m : ℕ)
    → lost ≡ []
    → (written ++ (waiting ++ lost)) ++ m ∷ [] ≡ written ++ ((waiting ++ m ∷ []) ++ lost)
queued_behind written waiting lost m e = simp (e, append_assoc, append-nil)

-- The front of the queue is popped, and the next is being written.
next_written :
    (written rest lost : List ℕ) (m : ℕ)
    → written ++ ((m ∷ rest) ++ lost) ≡ (written ++ m ∷ []) ++ (rest ++ lost)
next_written written rest lost m = simp (append_assoc)

send-IsLost :
    (throws : Bool) (m : ℕ) (c : Connection) (lost : List ℕ)
    → IsSound c
    → IsLost lost c
    → Lost lost (send throws m c)
unfolding send internal_send close close_socket
send-IsLost throws m c lost h l =
    ground (arith, queued_behind c.written (waiting c) lost m, next_written c.written [] lost m)

write-IsLost :
    (error throws : Bool) (c : Connection) (lost : List ℕ)
    → c.writes ≡ 0
    → IsLost lost (record c { writes = 1 })
    → Lost (if error then tail c.queue ++ lost else lost) (on_write_operation error throws c)
unfolding on_write_operation internal_send close close_socket
write-IsLost error throws c lost w l =
    ground (arith, next_written c.written (tail (tail c.queue)) lost (get_or c.queue 1 0))

answer_call-IsLost :
    (call : Call) (c : Connection) (lost : List ℕ)
    → IsSound c
    → IsLost lost c
    → Lost lost (answer_call call c)
unfolding answer_call close close_socket
answer_call-IsLost (ask_send throws m) c lost h l = send-IsLost throws m c lost h l
answer_call-IsLost (ask_close force) c lost h l = close-IsLost force c lost l

after_call :
    (reads : ℕ) (lost : List ℕ) (r : Option Connection) (f : Connection → Option Connection)
    → Speaks reads r
    → Lost lost r
    → ((c : Connection)
        → IsSound c
        → has_protocol c.protocol ≡ true
        → IsLost lost c
        → Lost lost (f c))
    → Lost lost (r >>= f)
after_call reads lost none f s l k = l
after_call reads lost (some c) f s l k = k c s.0 s.2 l

answer_calls-IsLost :
    (calls : List Call) (c : Connection) (lost : List ℕ)
    → IsSound c
    → has_protocol c.protocol ≡ true
    → IsLost lost c
    → Lost lost (answer_calls calls c)
unfolding answer_calls
answer_calls-IsLost [] c lost h p l = l
answer_calls-IsLost (call ∷ calls) c lost h p l =
    after_call (c.headers + c.bodies) lost (answer_call call c) (answer_calls calls)
      (answer_call-Speaks call c p h) (answer_call-IsLost call c lost h l)
      λ after sound speaks kept. answer_calls-IsLost calls after lost sound speaks kept

accept-after-IsLost :
    (throws : Bool) (lost : List ℕ) (r : Option Connection)
    → Lost lost r
    → Lost lost (r >>= λ after. some (accept throws after))
accept-after-IsLost throws lost none l = l
accept-after-IsLost throws lost (some c) l = accept-IsLost throws c lost l

answered-IsLost :
    (throws : Bool) (calls : List Call) (c : Connection) (lost : List ℕ)
    → IsSound c
    → has_protocol c.protocol ≡ true
    → IsLost lost c
    → Lost lost (answer_calls calls c >>= λ after. some (accept throws after))
answered-IsLost throws calls c lost h p l =
    accept-after-IsLost throws lost (answer_calls calls c) (answer_calls-IsLost calls c lost h p l)

parse_packet-IsLost :
    (error throws : Bool) (made : Option ℕ) (calls : List Call) (c : Connection) (lost : List ℕ)
    → c.headers + c.bodies ≡ 0
    → IsSound c
    → IsLost lost c
    → Lost lost (parse_packet error throws made calls c)
unfolding parse_packet close close_socket
parse_packet-IsLost error throws none calls c lost idle h l = ground (
  arith,
  answered-IsLost throws calls (record c { read_timer = false }) lost,
  answered-IsLost throws calls (record c { read_timer = false; received_first = true }) lost,
)
parse_packet-IsLost error throws (some new) calls c lost idle h l = ground (
  arith,
  answered-IsLost throws calls (record c { read_timer = false }) lost,
  answered-IsLost throws calls (record c { read_timer = false; received_first = true }) lost,
  answered-IsLost throws calls
      (record c { read_timer = false; received_first = true; protocol = some new }) lost,
)

-- Some messages may be lost now.
abbrev pub Ordered : Option Connection → Type 0
Ordered r = (lost : List ℕ) × Lost lost r

pending-Ordered :
    (c : Connection) (count : ℕ) (f : ℕ → Option Connection) (lost : List ℕ)
    → IsLost lost c
    → ((n : ℕ) → count ≡ suc n → Ordered (f n))
    → Ordered (elim count [ zero ↦ some c | suc n ↦ f n ])
pending-Ordered c zero f lost l k = (lost, l)
pending-Ordered c (suc n) f lost l k = k n refl

step-Ordered :
    (limit : ℕ) (c : Connection) (e : Event) (lost : List ℕ)
    → IsSound c
    → IsLost lost c
    → Ordered (step limit c e)
unfolding step answer_call handle_timeout close close_socket
step-Ordered limit c (called (ask_close force)) lost h l = (lost, close-IsLost force c lost l)
step-Ordered limit c (called (ask_send throws m)) lost h l =
    (lost, ground (arith, send-IsLost throws m c lost))
step-Ordered limit c (wrote error throws) lost h l = pending-Ordered c c.writes _ lost l λ n e.
    (_, write-IsLost error throws (record c { writes = n }) lost (ground arith) (ground arith))
step-Ordered limit c (header_came error throws now msg) lost h l =
    pending-Ordered c c.headers _ lost l λ n e. (
      lost,
      parse_header-IsLost limit error throws now msg (record c { headers = n }) lost (ground arith),
    )
step-Ordered limit c (packet_came error throws made calls) lost h l =
    pending-Ordered c c.bodies _ lost l λ n e. (
      lost,
      parse_packet-IsLost error throws made calls (record c { bodies = n }) lost (ground arith)
          (ground arith) (ground arith),
    )
step-Ordered limit c (timed_out aborted) lost h l = (lost, ground arith)

after_step :
    (r : Option Connection) (f : Connection → Option Connection)
    → Sound r
    → Ordered r
    → ((c : Connection) (lost : List ℕ) → IsSound c → IsLost lost c → Ordered (f c))
    → Ordered (r >>= f)
after_step none f s o k = o
after_step (some c) f s o k = k c o.0 s o.1

run-Ordered :
    (limit : ℕ) (c : Connection) (es : List Event) (lost : List ℕ)
    → IsSound c
    → IsLost lost c
    → Ordered (run limit c es)
unfolding run
run-Ordered limit c [] lost h l = (lost, l)
run-Ordered limit c (e ∷ es) lost h l =
    after_step (step limit c e) (λ after. run limit after es) (step-Sound limit c e h)
      (step-Ordered limit c e lost h l)
      λ after gone sound kept. run-Ordered limit after es gone sound kept

begin-IsLost : (first : Option ℕ) (throws : Bool) (now : ℕ) → IsLost [] (begin first throws now)
unfolding accept accept_protocol new_connection close close_socket
begin-IsLost none throws now = ground arith
begin-IsLost (some p) throws now = ground arith

-- Whatever happens to a connection, the messages put into its queue are given to the network in that
-- order, each once and none left out: those written come first, then those that wait in the queue,
-- then those that were lost, and none is lost as long as the connection is open.
pub run-in_order :
    (limit now : ℕ) (first : Option ℕ) (throws : Bool) (es : List Event) (c : Connection)
    → run limit (begin first throws now) es ≡ some c
    → (lost : List ℕ) × (c.queued ≡ c.written ++ (waiting c ++ lost))
      × (c.closed ≡ false → lost ≡ [])
run-in_order limit now first throws es c e =
    let start = begin first throws now in
    let (lost, kept) : Ordered (some c) = subst Ordered e (
      run-Ordered limit start es [] (begin-IsSound first throws now)
        (begin-IsLost first throws now)) in
    (lost, kept.0, kept.1)
