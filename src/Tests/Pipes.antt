-- ===== src/Tests/Pipes.antt =====
-- A connection that splits its first TLS record, and a listener with two callers.
use relaybaton.Common.{
  ◌≤◌, ◌≡◌, refl, Bool, true, false, List, [], ◌∷◌, ◌++◌, arith, ◌=ℕ◌, Bytes, length, concat,
}
use relaybaton.Config.Load.{returns}
use relaybaton.Sockets.Segment.{Tcp, IsWriter, SegmentConn, Wrote, write_all}
use relaybaton.Sockets.Segment.Stream.{write_all-concat}
use relaybaton.Sockets.Memory.{
  near, far, MemSocket, new_mem_socket, dial, accept, Event, dialed, accepted, closed, Reach, start,
  dials, accepts, closes, close,
}
use relaybaton.Sockets.Memory.Fifo.{IsQueue, Reach-IsQueue}

-- A record of a handshake begins with 22.
abbrev is_handshake : Bytes → Bool
is_handshake (x ∷ y ∷ rest) = x =ℕ 22
is_handshake _ = false

abbrev tcp : Tcp
tcp = record { takes = λ sent b. length b; succeeds = λ sent b. true; is_tls = is_handshake }

tcp-IsWriter : IsWriter tcp
tcp-IsWriter = record { takes_at_most = λ sent b. omega arith; takes_all = λ sent b h. refl }

handshake_long : (b : Bytes) → is_handshake b ≡ true → 2 ≤ length b
handshake_long [] h = cc
handshake_long (x ∷ []) h = cc
handshake_long (x ∷ y ∷ rest) h = omega arith

abbrev fresh : SegmentConn
fresh = record { segment_on = true; segments = [] }

abbrev pieces : List Bytes
pieces = (22 ∷ 3 ∷ 1 ∷ 0 ∷ []) ∷ (23 ∷ 3 ∷ []) ∷ []

write_all-concat_example :
    (w : Wrote) × (write_all tcp fresh pieces ≡ returns w)
    × (w.succeeded ≡ true → concat w.conn.segments ≡ concat fresh.segments ++ concat pieces)
write_all-concat_example = write_all-concat tcp tcp-IsWriter fresh pieces handshake_long

abbrev two_callers : List Event
two_callers = dialed (near 0) ∷ dialed (near 1) ∷ closed ∷ accepted (far 0) ∷ []

abbrev one_left : MemSocket
one_left = record { pipe = far 1 ∷ []; made = 2 }

two_callers-Reach : Reach new_mem_socket two_callers one_left
unfolding dial new_mem_socket accept close
two_callers-Reach =
    accepts (closes (dials {t = record { pipe = far 0 ∷ []; made = 1 }} (dials start refl) refl))
      refl

Reach-IsQueue_example : IsQueue two_callers one_left
Reach-IsQueue_example = Reach-IsQueue two_callers one_left two_callers-Reach
