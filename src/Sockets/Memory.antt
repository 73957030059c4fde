-- ===== src/Sockets/Memory.antt =====
-- internal/memsocket: a listener whose connections are pipes in memory. Each event is one operation
-- that went through; an operation that waits is none.
pub mod Fifo
use relaybaton.Common.{
  ℕ, ◌+◌, ◌≡◌, Option, none, some, List, [], ◌∷◌, ◌++◌, ltb, if◌then◌else◌, length,
}

-- The two ends of the pipe that the `n`-th `net.Pipe` made.
pub data End : Type 0 where
  near far : ℕ → End

pub record MemSocket : Type 0 where
  pub pipe : List End
  pub made : ℕ

-- The capacity of the channel.
abbrev pub capacity : ℕ
capacity = 1024

unfoldable pub new_mem_socket : MemSocket
new_mem_socket = record { pipe = []; made = 0 }

-- The caller's end; `none` is a `Dial` that waits for room.
unfoldable pub dial : MemSocket → Option (MemSocket × End)
dial s =
    if ltb (length s.pipe) capacity
    then some (record { pipe = s.pipe ++ far s.made ∷ []; made = s.made + 1 }, near s.made)
    else none

-- `none` is an `Accept` that waits for a connection.
unfoldable pub accept : MemSocket → Option (MemSocket × End)
accept s = accept_from s.pipe
  where
    accept_from : List End → Option (MemSocket × End)
    accept_from [] = none
    accept_from (c ∷ rest) = some (record s { pipe = rest }, c)

-- `Listener.Close`.
unfoldable pub close : MemSocket → MemSocket
close s = s

pub data Event : Type 0 where
  dialed accepted : End → Event
  closed : Event

-- The runs of one socket, with what each operation returned, the first one first.
pub data Reach (s : MemSocket) : List Event → MemSocket → Type 0 where
  start : Reach s [] s
  dials :
      {t u : MemSocket} {es : List Event} {c : End}
      → Reach s es t
      → dial t ≡ some (u, c)
      → Reach s (es ++ dialed c ∷ []) u
  accepts :
      {t u : MemSocket} {es : List Event} {c : End}
      → Reach s es t
      → accept t ≡ some (u, c)
      → Reach s (es ++ accepted c ∷ []) u
  closes : {t : MemSocket} {es : List Event} → Reach s es t → Reach s (es ++ closed ∷ []) (close t)

abbrev pub other_end : End → End
other_end (near n) = far n
other_end (far n) = near n

-- The ends that `Dial` returned, and those that `Accept` did.
abbrev pub dialed_ends : List Event → List End
dialed_ends [] = []
dialed_ends (dialed c ∷ es) = c ∷ dialed_ends es
dialed_ends (accepted c ∷ es) = dialed_ends es
dialed_ends (closed ∷ es) = dialed_ends es

abbrev pub accepted_ends : List Event → List End
accepted_ends [] = []
accepted_ends (dialed c ∷ es) = accepted_ends es
accepted_ends (accepted c ∷ es) = c ∷ accepted_ends es
accepted_ends (closed ∷ es) = accepted_ends es
