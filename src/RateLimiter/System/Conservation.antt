-- ===== src/RateLimiter/System/Conservation.antt =====
-- What holds of a shared `RateLimiter` in every interleaving (pkg/core/ratelimiter.go).
use relaybaton.Common.{
  ℕ, ◌+◌, ◌*◌, ◌^◌, ◌≤◌, ◌<◌, ◌≡◌, ◌⊎◌, Option, none, some, arith, ◌=ℕ◌, if◌then◌else◌,
}
use relaybaton.Common.Words.{u64}
use relaybaton.RateLimiter.{RateLimiter, new_rate_limiter, begin_wait, refill, serve, available}
use relaybaton.RateLimiter.System.{
  System, start, Step, refills, serves, refuses, begins, returns, Reach, here, next,
}

-- The tokens that are taken for the call which holds `mutexWait`, and not yet returned for.
abbrev pending_of : Option ℕ → ℕ → ℕ
pending_of none done = 0
pending_of (some n) done = if done =ℕ 0 then n else 0

abbrev pending : System → ℕ
pending s = pending_of s.mutex_wait s.limiter.done

-- Whether the wait group and the waiting tokens belong to the call which holds `mutexWait`.
abbrev Agrees : Option ℕ → RateLimiter → Type 0
Agrees none rl = (rl.waiting ≡ 0) × (rl.done ≡ 0)
Agrees (some n) rl =
    (n ≤ rl.capacity)
    × (((rl.waiting ≡ n) × (rl.done ≡ 1)) ⊎ ((rl.waiting ≡ 0) × (rl.done ≡ 0) × (0 < n)))

pub record Inv (b c : ℕ) (s : System) : Type 0 where
  pub bandwidth : s.limiter.bandwidth ≡ b
  pub capacity : s.limiter.capacity ≡ c
  pub bounded : s.limiter.tokens ≤ c
  pub agrees : Agrees s.mutex_wait s.limiter

pub start-Inv : (b : ℕ) → Inv b (u64 (b * 2 ^ 4)) (start (new_rate_limiter b))
unfolding start new_rate_limiter
start-Inv b = ground arith

Step-Inv : {b c : ℕ} {s t : System} → Step s t → Inv b c s → Inv b c t
unfolding refill serve begin_wait
Step-Inv (refills s a) v = ground arith
Step-Inv (serves s a) v = ground arith
Step-Inv (refuses s n e r) v = v
Step-Inv (begins s n rl e r) v = ground arith
Step-Inv (returns s n e d) v = ground arith

pub Reach-Inv : {b c : ℕ} {s t : System} → Inv b c s → Reach s t → Inv b c t
Reach-Inv v here = v
Reach-Inv v (next r st) = Step-Inv st (Reach-Inv v r)

-- What has been returned, taken and kept.
abbrev budget : System → ℕ
budget s = s.returned + pending s + s.limiter.tokens

refill_le :
    (rl : RateLimiter) (n : ℕ)
    → ((refill rl n).done ≡ rl.done) × ((refill rl n).tokens ≤ rl.tokens + n)
unfolding refill
refill_le rl n = ground arith

Step-budget :
    {b c : ℕ} {s t : System}
    → Step s t
    → Inv b c s
    → (s.ticks ≤ t.ticks) × (budget t + b * s.ticks ≤ budget s + b * t.ticks)
unfolding serve begin_wait
Step-budget (refills s a) v =
    let (e, h) = refill_le s.limiter s.limiter.bandwidth in (omega arith, rw e (omega arith))
Step-budget (serves s a) v = ground arith
Step-budget (refuses s n e r) v = omega arith
Step-budget (begins s n rl e r) v = ground arith
Step-budget (returns s n e d) v = ground arith

Reach-budget :
    {b c : ℕ} {s t : System}
    → Inv b c s
    → Reach s t
    → (s.ticks ≤ t.ticks) × (budget t + b * s.ticks ≤ budget s + b * t.ticks)
Reach-budget v here = omega arith
Reach-budget v (next r st) = omega (arith, Reach-budget v r, Step-budget st (Reach-Inv v r))

pending-le : {b c : ℕ} {s : System} → Inv b c s → pending s ≤ c
pending-le {s = s} v = bound s.mutex_wait s.limiter v.agrees v.capacity
  where
    bound :
        {c : ℕ} (m : Option ℕ) (rl : RateLimiter)
        → Agrees m rl
        → rl.capacity ≡ c
        → pending_of m rl.done ≤ c
    bound none rl a e = omega arith
    bound (some n) rl a e = ground arith

-- In every interleaving of `Run` with calls of `Wait`, started on a new limiter of bandwidth b: the
-- tokens stay within the capacity, and between any two states the calls of `Wait` that return are
-- for at most the bandwidth times the rounds of `Run` in between, and twice the capacity.
pub Reach-rate :
    (b : ℕ) {s t : System}
    → Reach (start (new_rate_limiter b)) s
    → Reach s t
    → let c = u64 (b * 2 ^ 4) in
      (available t.limiter ≤ c) × (t.returned + b * s.ticks ≤ s.returned + 2 * c + b * t.ticks)
unfolding available
Reach-rate b r r' =
    let v = Reach-Inv (start-Inv b) r in
    let v' = Reach-Inv v r' in
    (ground arith, omega (arith, Reach-budget v r', pending-le v, v.bounded))

-- Counted from the start of a new limiter of bandwidth b, what `Wait` has returned for and the
-- tokens at hand are together at most the bandwidth times the rounds of `Run`.
pub Reach-total :
    (b : ℕ) {s : System}
    → Reach (start (new_rate_limiter b)) s
    → s.returned + available s.limiter ≤ b * s.ticks
unfolding available start new_rate_limiter
Reach-total b r = omega (arith, Reach-budget (start-Inv b) r)
