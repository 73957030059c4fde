-- ===== src/Tests/Buckets.antt =====
-- A limiter of 100 tokens a round, and a call of `Wait`.
use relaybaton.Common.{◌+◌, ◌*◌, ◌^◌, ◌≤◌, ◌≡◌, refl, true, false, none, some, arith, ok}
use relaybaton.Common.Words.{u64}
use relaybaton.RateLimiter.{RateLimiter, new_rate_limiter, begin_wait, available, refill, serve}
use relaybaton.RateLimiter.Liveness.{ticks, begin_wait-served}
use relaybaton.RateLimiter.System.{
  System, start, refills, serves, begins, returns, Reach, here, next,
}
use relaybaton.RateLimiter.System.Conservation.{Reach-rate}

abbrev limiter : RateLimiter
limiter = record { bandwidth = 100; tokens = 0; capacity = 1600; done = 0; waiting = 0 }

abbrev asked : RateLimiter
asked = record limiter { waiting = 250; done = 1 }

begun : begin_wait limiter 250 ≡ ok asked
unfolding begin_wait
begun = refl

begin_wait-served_example : ((ticks 3 asked).waiting ≡ 0) × ((ticks 3 asked).done ≡ 0)
begin_wait-served_example =
    begin_wait-served limiter asked 250 3 begun refl (omega arith) (omega arith) (omega arith)
      (omega arith) (omega arith)

abbrev pub filled : System
filled = record {
  limiter = record limiter { tokens = 100 };
  mutex_wait = none;
  adding = true;
  ticks = 1;
  returned = 0;
}

abbrev taking : System
taking = record filled {
  limiter = record limiter { tokens = 100; waiting = 60; done = 1 };
  mutex_wait = some 60;
}

abbrev taken : System
taken = record taking { limiter = record limiter { tokens = 40 }; adding = false }

abbrev pub back : System
back = record taken { mutex_wait = none; returned = 60 }

pub first_round : Reach (start (new_rate_limiter 100)) filled
unfolding start new_rate_limiter refill
first_round = next here (refills (start (new_rate_limiter 100)) refl)

pub one_call : Reach filled back
unfolding begin_wait serve
one_call =
    next (next (next here (begins filled 60 taking.limiter refl refl)) (serves taking refl))
      (returns taken 60 refl refl)

Reach-rate_example :
    (available back.limiter ≤ u64 (100 * 2 ^ 4))
    × (back.returned + 100 * filled.ticks
        ≤ filled.returned + 2 * u64 (100 * 2 ^ 4) + 100 * back.ticks)
Reach-rate_example = Reach-rate 100 first_round one_call
