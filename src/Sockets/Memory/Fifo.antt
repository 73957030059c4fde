-- ===== src/Sockets/Memory/Fifo.antt =====
-- The socket in memory is a queue (internal/memsocket).
use mathlib.Core.Path.{subst}
use mathlib.Core.List.{append_assoc, append-nil, map-append}
use relaybaton.Common.{
  ℕ, ◌+◌, ◌≤◌, ◌<◌, ◌≡◌, refl, sym, ap, inl, inr, some, List, [], ◌∷◌, ◌++◌, map, arith, ltb,
  Bool-cases, length, length-append, some_injective,
}
use relaybaton.Sockets.Memory.{
  far, near, End, MemSocket, capacity, new_mem_socket, dial, accept, close, Event, dialed, accepted,
  closed, Reach, start, dials, accepts, closes, other_end, dialed_ends, accepted_ends,
}

pub record IsQueue (es : List Event) (s : MemSocket) : Type 0 where
  in_order : map other_end (dialed_ends es) ≡ accepted_ends es ++ s.pipe
  pub bounded : length s.pipe ≤ capacity

dialed_ends-append :
    (es fs : List Event) → dialed_ends (es ++ fs) ≡ dialed_ends es ++ dialed_ends fs
dialed_ends-append [] fs = refl
dialed_ends-append (dialed c ∷ es) fs = ap (λ x. c ∷ x) (dialed_ends-append es fs)
dialed_ends-append (accepted c ∷ es) fs = dialed_ends-append es fs
dialed_ends-append (closed ∷ es) fs = dialed_ends-append es fs

accepted_ends-append :
    (es fs : List Event) → accepted_ends (es ++ fs) ≡ accepted_ends es ++ accepted_ends fs
accepted_ends-append [] fs = refl
accepted_ends-append (dialed c ∷ es) fs = accepted_ends-append es fs
accepted_ends-append (accepted c ∷ es) fs = ap (λ x. c ∷ x) (accepted_ends-append es fs)
accepted_ends-append (closed ∷ es) fs = accepted_ends-append es fs

dialed-IsQueue :
    (es : List Event) (t : MemSocket) (n m : ℕ)
    → IsQueue es t
    → length t.pipe < capacity
    → IsQueue (es ++ dialed (near n) ∷ []) (record { pipe = t.pipe ++ far n ∷ []; made = m })
dialed-IsQueue es t n m q room = record {
  in_order =
      rw
        (
          dialed_ends-append es (dialed (near n) ∷ []),
          accepted_ends-append es (dialed (near n) ∷ []),
          map-append other_end (dialed_ends es) (near n ∷ []),
          q.in_order,
          append-nil (accepted_ends es),
        )
        (append_assoc (accepted_ends es) t.pipe (far n ∷ []));
  bounded = rw (length-append t.pipe (far n ∷ [])) (omega arith);
}

dial-IsQueue :
    (es : List Event) (t u : MemSocket) (c : End)
    → IsQueue es t
    → dial t ≡ some (u, c)
    → IsQueue (es ++ dialed c ∷ []) u
unfolding dial
dial-IsQueue es t u c q h = elim (Bool-cases (ltb (length t.pipe) capacity)) [
  | inr full ↦ cc (rw (full) at h)
  | inl room ↦
      subst (λ (x : MemSocket × End). IsQueue (es ++ dialed x.1 ∷ []) x.0)
        (some_injective (rw (room) at h)) (dialed-IsQueue es t t.made (t.made + 1) q (ground arith))
]

accepted-IsQueue :
    (es : List Event) (c : End) (rest : List End) (n : ℕ)
    → IsQueue es (record { pipe = c ∷ rest; made = n })
    → IsQueue (es ++ accepted c ∷ []) (record { pipe = rest; made = n })
accepted-IsQueue es c rest n q = record {
  in_order =
      rw
        (
          dialed_ends-append es (accepted c ∷ []),
          accepted_ends-append es (accepted c ∷ []),
          append-nil (dialed_ends es),
          q.in_order,
        )
        (sym (append_assoc (accepted_ends es) (c ∷ []) rest));
  bounded = omega (arith, q.bounded);
}

accept-IsQueue :
    (es : List Event) (t u : MemSocket) (c : End)
    → IsQueue es t
    → accept t ≡ some (u, c)
    → IsQueue (es ++ accepted c ∷ []) u
unfolding accept
accept-IsQueue es t u c q h = from t.pipe t.made q h
  where
    from :
        (pipe : List End) (n : ℕ)
        → IsQueue es (record { pipe = pipe; made = n })
        → accept (record { pipe = pipe; made = n }) ≡ some (u, c)
        → IsQueue (es ++ accepted c ∷ []) u
    from [] n r e = cc
    from (d ∷ rest) n r e =
        subst (λ (x : MemSocket × End). IsQueue (es ++ accepted x.1 ∷ []) x.0) (some_injective e)
          (accepted-IsQueue es d rest n r)

close-IsQueue :
    (es : List Event) (t : MemSocket) → IsQueue es t → IsQueue (es ++ closed ∷ []) (close t)
unfolding close
close-IsQueue es t q = record {
  in_order =
      rw
        (
          dialed_ends-append es (closed ∷ []),
          accepted_ends-append es (closed ∷ []),
          append-nil (dialed_ends es),
          append-nil (accepted_ends es),
        )
        q.in_order;
  bounded = q.bounded;
}

-- The socket implements a queue of 1024 connections: in a run of a new one, the connections that were
-- accepted, with those that wait after them, are the other ends of those that were dialed, in the order
-- in which they were dialed, and at most 1024 wait.
pub Reach-IsQueue : (es : List Event) (s : MemSocket) → Reach new_mem_socket es s → IsQueue es s
unfolding new_mem_socket
Reach-IsQueue es s start = record { in_order = refl; bounded = omega arith }
Reach-IsQueue es s (dials {t} {es = fs} {c} r h) = dial-IsQueue fs t s c (Reach-IsQueue fs t r) h
Reach-IsQueue es s (accepts {t} {es = fs} {c} r h) =
    accept-IsQueue fs t s c (Reach-IsQueue fs t r) h
Reach-IsQueue es s (closes {t} {es = fs} r) = close-IsQueue fs t (Reach-IsQueue fs t r)
