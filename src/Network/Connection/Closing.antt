-- ===== src/Network/Connection/Closing.antt =====
-- src/connection.cpp: how a connection ends, and what it reads before.
use mathlib.Core.List.{append_assoc, append-nil}
use ot_tibia_teste.Common.{
  ℕ, suc, ◌+◌, ◌/◌, ◌≤◌, ◌<◌, ◌≡◌, ◌⊎◌, refl, ap, subst, ◌∙◌, List, [], ◌∷◌, ◌++◌, Option, none,
  some, Bool, true, false, ◌>>=◌, arith, length, replicate,
}
use ot_tibia_teste.Common.Words.{u32}
use ot_tibia_teste.Network.Message.{Message, max_size, get_length_header}
use ot_tibia_teste.Network.Connection.{
  Connection, is_empty, close_socket, close, internal_send, on_write_operation, parse_header,
  time_passed,
}
use ot_tibia_teste.Network.Connection.Run.{wrote, step, run}
use ot_tibia_teste.Network.Connection.Laws.{IsSound, has_protocol}

-- The connection is closed while its queue is being written.
abbrev IsDraining : List ℕ → Connection → Type 0
IsDraining queue c =
    (c.queue ≡ queue)
    × (is_empty queue ≡ false)
    × (c.closed ≡ true)
    × (c.writes ≡ 1)
    × (has_protocol c.protocol ≡ true)

-- All was written, and the socket is closed.
abbrev IsDrained : List ℕ → Connection → Type 0
IsDrained written c =
    (c.written ≡ written) × (c.queue ≡ []) × (c.socket_open ≡ false) × (c.writes ≡ 0)

-- The handler came to its end, in a connection with a property.
abbrev Ends : (Connection → Type 0) → Option Connection → Type 0
Ends P none = ⊥
Ends P (some c) = P c

bind-Ends :
    (P Q : Connection → Type 0) (r : Option Connection) (f : Connection → Option Connection)
    → Ends P r
    → ((c : Connection) → P c → Ends Q (f c))
    → Ends Q (r >>= f)
bind-Ends P Q none f h k = absurd h
bind-Ends P Q (some c) f h k = k c h

ended :
    (P : Connection → Type 0) (r : Option Connection)
    → Ends P r
    → (c : Connection) × (r ≡ some c) × P c
ended P none h = absurd h
ended P (some c) h = (c, refl, h)

module _ (limit : ℕ) where
  last_write :
      (m : ℕ) (c : Connection)
      → IsDraining (m ∷ []) c
      → Ends (IsDrained c.written) (step limit c (wrote false false))
  unfolding step on_write_operation internal_send close_socket
  last_write m c h = ground arith

  next_write :
      (m next : ℕ) (more : List ℕ) (c : Connection)
      → IsDraining (m ∷ next ∷ more) c
      → Ends
          (λ d. IsDraining (next ∷ more) d × (d.written ≡ c.written ++ next ∷ []))
          (step limit c (wrote false false))
  unfolding step on_write_operation internal_send
  next_write m next more c h = ground arith

  -- Each write that succeeds begins the next, until the queue is empty.
  drain :
      (m : ℕ) (more : List ℕ) (c : Connection)
      → IsDraining (m ∷ more) c
      → Ends
          (IsDrained (c.written ++ more))
          (run limit c (replicate (length (m ∷ more)) (wrote false false)))
  unfolding run
  drain m [] c h =
      bind-Ends (IsDrained c.written) _ (step limit c (wrote false false)) _ (last_write m c h)
        λ d e. rw (append-nil c.written) e
  drain m (next ∷ more) c h =
      bind-Ends _ _ (step limit c (wrote false false)) _ (next_write m next more c h) λ d e.
        subst
          (λ w.
            Ends (IsDrained w) (run limit d (replicate (length (next ∷ more)) (wrote false false))))
          (ap (λ w. w ++ more) e.1 ∙ append_assoc c.written (next ∷ []) more)
          (drain next more d e.0)

  close-Draining :
      (m : ℕ) (more : List ℕ) (c : Connection)
      → IsSound c
      → c.closed ≡ false
      → c.queue ≡ m ∷ more
      → IsDraining (m ∷ more) (close false c)
        × ((close false c).written ≡ c.written)
        × ((close false c).socket_open ≡ c.socket_open)
  unfolding close close_socket
  close-Draining m more c h opened e = ground arith

-- A connection that is closed without force while messages wait keeps its socket, writes all of them
-- in order when the writes succeed, and closes the socket after the last.
pub close-drain :
    (limit m : ℕ) (more : List ℕ) (c : Connection)
    → IsSound c
    → c.closed ≡ false
    → c.queue ≡ m ∷ more
    → ((close false c).socket_open ≡ c.socket_open)
      × ((d : Connection) × (run limit
              (close false c)
              (replicate (suc (length more)) (wrote false false))
            ≡ some d)
          × (d.written ≡ c.written ++ more)
          × (d.queue ≡ [])
          × (d.socket_open ≡ false))
close-drain limit m more c h opened e =
    let (begin, same, socket) = close-Draining limit m more c h opened e in
    let (d, ran, drained) =
      ended (IsDrained ((close false c).written ++ more))
        (run limit (close false c) (replicate (length (m ∷ more)) (wrote false false)))
        (drain limit m more (close false c) begin) in
    (socket, (d, ran, drained.0 ∙ ap (λ w. w ++ more) same, drained.1, drained.2))

-- Every branch of `parseHeader` at an open connection: the connection is closed and no body read
-- is begun, or the packet is within the limit and a read of its whole body, which the buffer holds,
-- is begun.
pub parse_header_lem :
    (limit : ℕ) (error throws : Bool) (now : ℕ) (msg : Message) (c : Connection)
    → c.closed ≡ false
    → let d = parse_header limit error throws now msg c in
      ((d.closed ≡ true) × (d.bodies ≡ c.bodies))
      ⊎ ((d.closed ≡ false)
          × (d.bodies ≡ suc c.bodies)
          × (d.length ≡ get_length_header msg + 2)
          × (2 < d.length)
          × (d.length < max_size)
          × (u32 (suc c.packets_sent) / time_passed now c ≤ u32 limit))
unfolding parse_header close close_socket
parse_header_lem limit error throws now msg c opened = ground arith
