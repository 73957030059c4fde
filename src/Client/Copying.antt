-- ===== src/Client/Copying.antt =====
-- The goroutines that copy back to the local side, `Run` and `DirectConnect` of pkg/core/conn.go.
pub mod Laws
use relaybaton.Common.{Bool, true, false, List, [], ◌∷◌, ◌++◌, Bytes}

-- A round of the loop: the read fails, or bytes arrive, and the local side takes them or not.
pub data Incoming : Type 0 where
  fails : Incoming
  arrives refused : Bytes → Incoming

abbrev write_before : Bytes → Bytes × Bool → Bytes × Bool
write_before b (written, closed) = (b ++ written, closed)

abbrev closes_now : Bytes × Bool
closes_now = ([], true)

-- What is written to the local side, and whether the connection is closed at the end. An empty
-- message from the server is passed over.
unfoldable pub run : List Incoming → Bytes × Bool
run [] = ([], false)
run (fails ∷ es) = closes_now
run (arrives [] ∷ es) = run es
run (arrives (b ∷ bs) ∷ es) = write_before (b ∷ bs) (run es)
run (refused [] ∷ es) = run es
run (refused (b ∷ bs) ∷ es) = closes_now

pub direct_connect : List Incoming → Bytes × Bool
direct_connect [] = ([], false)
direct_connect (fails ∷ es) = closes_now
direct_connect (arrives b ∷ es) = write_before b (direct_connect es)
direct_connect (refused b ∷ es) = closes_now
