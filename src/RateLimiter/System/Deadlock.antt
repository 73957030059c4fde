-- ===== src/RateLimiter/System/Deadlock.antt =====
-- A call of `Wait` for no tokens (pkg/core/ratelimiter.go): `add` takes `waiting` 0 for "nobody
-- waits", so the call is never served, and it holds `mutexWait`.
use relaybaton.Common.{◌<◌, ◌≡◌, refl, ◌∙◌, none, some, arith, ok}
use relaybaton.RateLimiter.{RateLimiter, begin_wait, refill, serve}
use relaybaton.RateLimiter.System.{
  System, Step, refills, serves, refuses, begins, returns, Reach, here, next,
}

record IsStuck (s : System) : Type 0 where
  held : s.mutex_wait ≡ some 0
  counted : 0 < s.limiter.done
  nothing : s.limiter.waiting ≡ 0

Step-IsStuck : {s t : System} → Step s t → IsStuck s → IsStuck t × (t.returned ≡ s.returned)
unfolding refill serve begin_wait
Step-IsStuck (refills s a) v = ground arith
Step-IsStuck (serves s a) v = ground arith
Step-IsStuck (refuses s n e r) v = (v, refl)
Step-IsStuck (begins s n rl e r) v = ground arith
Step-IsStuck (returns s n e d) v = ground arith

Reach-IsStuck : {s t : System} → IsStuck s → Reach s t → IsStuck t × (t.returned ≡ s.returned)
Reach-IsStuck v here = (v, refl)
Reach-IsStuck v (next r st) =
    let (w, e) = Reach-IsStuck v r in let (x, e') = Step-IsStuck st w in (x, e' ∙ e)

-- Once a call of `Wait` for no tokens has begun, it holds the mutex in every later state, and no
-- call of `Wait` returns any more.
pub begin_wait-zero :
    (s : System) (rl : RateLimiter) {t : System}
    → s.mutex_wait ≡ none
    → begin_wait s.limiter 0 ≡ ok rl
    → Reach (record s { limiter = rl; mutex_wait = some 0 }) t
    → (t.mutex_wait ≡ some 0) × (t.returned ≡ s.returned)
unfolding begin_wait
begin_wait-zero s rl e b r = let (v, same) = Reach-IsStuck (ground arith) r in (v.held, same)
