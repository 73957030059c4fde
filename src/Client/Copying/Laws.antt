-- ===== src/Client/Copying/Laws.antt =====
-- What `Run` and `DirectConnect` of pkg/core/conn.go pass on.
use mathlib.Core.List.{append_assoc, append-nil}
use relaybaton.Common.{
  ◌≡◌, refl, sym, ap, ◌⊎◌, inl, inr, Bool, true, false, List, [], ◌∷◌, ◌++◌, Bytes,
}
use relaybaton.Client.Copying.{Incoming, fails, arrives, refused, run, direct_connect}

-- All the bytes that arrive, also those behind the end of the loop.
abbrev pub payload : List Incoming → Bytes
payload [] = []
payload (fails ∷ es) = payload es
payload (arrives b ∷ es) = b ++ payload es
payload (refused b ∷ es) = b ++ payload es

abbrev pub IsCopy : Bytes → Bytes × Bool → Type 0
IsCopy bytes (written, closed) =
    (rest : Bytes) × (bytes ≡ written ++ rest) × ((closed ≡ true) ⊎ (rest ≡ []))

write_before-IsCopy :
    (b bytes : Bytes) (copied : Bytes × Bool)
    → IsCopy bytes copied
    → IsCopy (b ++ bytes) (b ++ copied.0, copied.1)
write_before-IsCopy b bytes (written, closed) (rest, e, whole) =
    (rest, rw e (sym (append_assoc b written rest)), whole)

-- What `Run` writes to the local side is what arrives from the server, in order and without a gap;
-- something is missing at the end only if the connection has been closed.
pub run-IsCopy : (es : List Incoming) → IsCopy (payload es) (run es)
unfolding run
run-IsCopy [] = ([], refl, inr refl)
run-IsCopy (fails ∷ es) = (payload es, refl, inl refl)
run-IsCopy (arrives [] ∷ es) = run-IsCopy es
run-IsCopy (arrives (b ∷ bs) ∷ es) =
    write_before-IsCopy (b ∷ bs) (payload es) (run es) (run-IsCopy es)
run-IsCopy (refused [] ∷ es) = run-IsCopy es
run-IsCopy (refused (b ∷ bs) ∷ es) = ((b ∷ bs) ++ payload es, refl, inl refl)

-- What `DirectConnect` writes to the local side is what arrives from the destination, in order and
-- without a gap; something is missing at the end only if the connection has been closed.
direct_connect-IsCopy : (es : List Incoming) → IsCopy (payload es) (direct_connect es)
unfolding direct_connect
direct_connect-IsCopy [] = ([], refl, inr refl)
direct_connect-IsCopy (fails ∷ es) = (payload es, refl, inl refl)
direct_connect-IsCopy (arrives b ∷ es) =
    write_before-IsCopy b (payload es) (direct_connect es) (direct_connect-IsCopy es)
direct_connect-IsCopy (refused b ∷ es) = (b ++ payload es, refl, inl refl)

-- A loop that has not ended goes on with a message, and ends with a read that fails.
pub run-arrives :
    (es : List Incoming) (b : Bytes)
    → (run es).1 ≡ false
    → run (es ++ arrives b ∷ []) ≡ ((run es).0 ++ b, false)
unfolding run
run-arrives [] [] h = refl
run-arrives [] (x ∷ b) h = ap (λ c. (x ∷ c, false)) (append-nil b)
run-arrives (fails ∷ es) b h = cc
run-arrives (arrives [] ∷ es) b h = run-arrives es b h
run-arrives (arrives (x ∷ xs) ∷ es) b h =
    rw (run-arrives es b h) (ap (λ c. (c, false)) (sym (append_assoc (x ∷ xs) (run es).0 b)))
run-arrives (refused [] ∷ es) b h = run-arrives es b h
run-arrives (refused (x ∷ xs) ∷ es) b h = cc

pub run-fails :
    (es : List Incoming) → (run es).1 ≡ false → run (es ++ fails ∷ []) ≡ ((run es).0, true)
unfolding run
run-fails [] h = refl
run-fails (fails ∷ es) h = cc
run-fails (arrives [] ∷ es) h = run-fails es h
run-fails (arrives (x ∷ xs) ∷ es) h = rw (run-fails es h)
run-fails (refused [] ∷ es) h = run-fails es h
run-fails (refused (x ∷ xs) ∷ es) h = cc

-- A read that fails adds nothing to what has been written.
pub run-fails_written : (es : List Incoming) → (run (es ++ fails ∷ [])).0 ≡ (run es).0
unfolding run
run-fails_written [] = refl
run-fails_written (fails ∷ es) = refl
run-fails_written (arrives [] ∷ es) = run-fails_written es
run-fails_written (arrives (x ∷ xs) ∷ es) = ap (λ c. (x ∷ xs) ++ c) (run-fails_written es)
run-fails_written (refused [] ∷ es) = run-fails_written es
run-fails_written (refused (x ∷ xs) ∷ es) = refl
