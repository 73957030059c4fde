-- ===== src/RateLimiter.antt =====
-- The token bucket of pkg/core/ratelimiter.go. Each method's critical section is one function;
-- `System` has the goroutines that call them. `uint` and `uint64` are 64 bits wide. The ticker, the
-- mutexes and the wait group are those of the standard library: `done` is the wait group's counter,
-- and `mutex_wait` of `System` says which call holds `mutexWait`.
pub mod Liveness
pub mod System
use relaybaton.Common.{
  ℕ, ◌+◌, ◌-◌, ◌*◌, ◌^◌, not, ◌&&◌, ltb, leb, ◌=ℕ◌, if◌then◌else◌, Result, ok, err,
}
use relaybaton.Common.Words.{u64}

pub record RateLimiter : Type 0 where
  pub bandwidth : ℕ
  pub tokens : ℕ
  pub capacity : ℕ
  pub done : ℕ
  pub waiting : ℕ

pub data Error : Type 0 where
  out_of_capacity : Error

-- `bandwidth << 4` is a shift of a 64-bit word.
unfoldable pub new_rate_limiter : ℕ → RateLimiter
new_rate_limiter bandwidth = record {
  bandwidth = bandwidth;
  tokens = 0;
  capacity = u64 (bandwidth * 2 ^ 4);
  done = 0;
  waiting = 0;
}

-- The first half of `add`: refill, up to the capacity.
unfoldable pub refill : RateLimiter → ℕ → RateLimiter
refill rl tokens =
    let result = u64 (rl.tokens + tokens) in
    if ltb result rl.capacity
    then record rl { tokens = result }
    else record rl { tokens = rl.capacity }

-- The second half of `add`: serve the call that waits, if the tokens are enough for it.
unfoldable pub serve : RateLimiter → RateLimiter
serve rl =
    if not (rl.waiting =ℕ 0) && leb rl.waiting rl.tokens
    then record rl {
      tokens = if ltb rl.waiting rl.tokens then rl.tokens - rl.waiting else 0;
      waiting = 0;
      done = rl.done - 1;
    }
    else rl

unfoldable add : RateLimiter → ℕ → RateLimiter
unfolding refill serve
add rl tokens = serve (refill rl tokens)

-- A round of `Run`.
pub tick : RateLimiter → RateLimiter
unfolding add
tick rl = add rl rl.bandwidth

-- `Wait` up to `done.Wait()`, which returns when `done` is 0.
unfoldable pub begin_wait : RateLimiter → ℕ → Result Error RateLimiter
begin_wait rl tokens =
    if ltb rl.capacity tokens
    then err out_of_capacity
    else ok (record rl { waiting = tokens; done = rl.done + 1 })

unfoldable pub available : RateLimiter → ℕ
available rl = rl.tokens

unfoldable capacity_of : RateLimiter → ℕ
capacity_of rl = rl.capacity
