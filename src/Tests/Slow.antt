-- ===== src/Tests/Slow.antt =====
-- A user whose plan has a bandwidth limit of 1, at the first read of a relay.
use relaybaton.Common.Dict.{get}
use relaybaton.Common.{
  ℕ, ◌≡◌, refl, false, none, some, [], arith, same_nat, same_string, same_bytes, ok,
}
use relaybaton.RateLimiter.{RateLimiter, begin_wait, refill, serve, new_rate_limiter}
use relaybaton.RateLimiter.System.{System, start, refills, serves, Reach, here, next}
use relaybaton.Server.Buckets.{Buckets, get_bucket}
use relaybaton.Server.Slow.{limiter_of, get_bucket-begin_wait}
use relaybaton.Web.Rows.{User}
use relaybaton.Tests.Handlers.{gorm, alice}

abbrev slow_alice : User
slow_alice = record alice { plan = record alice.plan { bandwidth_limit = 1 } }

abbrev no_buckets : Buckets
no_buckets = record { places = []; limiters = [] }

abbrev limiter : RateLimiter
limiter = record { bandwidth = 0; tokens = 0; capacity = 0; done = 0; waiting = 0 }

-- After a round of `Run`.
abbrev before : System
before = record { limiter = limiter; mutex_wait = none; adding = false; ticks = 1; returned = 0 }

abbrev waiting : RateLimiter
waiting = record limiter { done = 1 }

-- After the call has begun, and another round.
abbrev after : System
after = record { limiter = waiting; mutex_wait = some 0; adding = false; ticks = 2; returned = 0 }

given : limiter_of (get_bucket gorm slow_alice no_buckets "alice") ≡ some limiter
unfolding get_bucket get new_rate_limiter
given = refl

to_before : Reach (start limiter) before
unfolding start refill serve
to_before = next (next here (refills _ refl)) (serves _ refl)

begun : begin_wait limiter 0 ≡ ok waiting
unfolding begin_wait
begun = refl

to_after : Reach (record before { limiter = waiting; mutex_wait = some 0 }) after
unfolding refill serve
to_after = next (next here (refills _ refl)) (serves _ refl)

get_bucket-begin_wait_example :
    (◌≡◌ {A = ℕ} 0 0) × (after.mutex_wait ≡ some 0) × (after.returned ≡ 0)
unfolding get
get_bucket-begin_wait_example =
    get_bucket-begin_wait gorm slow_alice no_buckets "alice" slow_alice limiter waiting 0 refl refl
      (omega arith) given to_before (omega arith) refl begun to_after
