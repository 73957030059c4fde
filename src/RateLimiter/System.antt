-- ===== src/RateLimiter/System.antt =====
-- The goroutines that share a `RateLimiter` (pkg/core/ratelimiter.go): `Run` ticks, and any number
-- of relay loops call `Wait`, one at a time, because `Wait` holds `mutexWait` until it returns.
-- `add` takes `mutexWriteWait` for its second half only, so a `Wait` can begin between the halves.
pub mod Conservation
pub mod Deadlock
use relaybaton.Common.{ℕ, ◌+◌, ◌≡◌, Bool, true, false, Option, none, some, ok, err}
use relaybaton.RateLimiter.{RateLimiter, begin_wait, refill, serve, out_of_capacity}

pub record System : Type 0 where
  pub limiter : RateLimiter
  -- The argument of the call of `Wait` that holds `mutexWait`.
  pub mutex_wait : Option ℕ
  -- Whether `Run` stands between the two halves of `add`.
  pub adding : Bool
  -- For the statements only: the rounds of `Run`, and the tokens that `Wait` has returned for.
  pub ticks : ℕ
  pub returned : ℕ

unfoldable pub start : RateLimiter → System
start rl = record { limiter = rl; mutex_wait = none; adding = false; ticks = 0; returned = 0 }

pub data Step : System → System → Type 0 where
  refills :
      (s : System)
      → s.adding ≡ false
      → Step s (record s {
        limiter = refill s.limiter s.limiter.bandwidth;
        adding = true;
        ticks = s.ticks + 1;
      })
  serves :
      (s : System)
      → s.adding ≡ true
      → Step s (record s { limiter = serve s.limiter; adding = false })
  refuses :
      (s : System) (n : ℕ)
      → s.mutex_wait ≡ none
      → begin_wait s.limiter n ≡ err out_of_capacity
      → Step s s
  begins :
      (s : System) (n : ℕ) (rl : RateLimiter)
      → s.mutex_wait ≡ none
      → begin_wait s.limiter n ≡ ok rl
      → Step s (record s { limiter = rl; mutex_wait = some n })
  returns :
      (s : System) (n : ℕ)
      → s.mutex_wait ≡ some n
      → s.limiter.done ≡ 0
      → Step s (record s { mutex_wait = none; returned = s.returned + n })

pub data Reach (s : System) : System → Type 0 where
  here : Reach s s
  next : {t u : System} → Reach s t → Step t u → Reach s u
