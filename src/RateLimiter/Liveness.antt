-- ===== src/RateLimiter/Liveness.antt =====
-- A call of `Wait` is served after enough rounds of `Run` (pkg/core/ratelimiter.go).
use relaybaton.Common.{
  ℕ, zero, suc, ◌+◌, ◌-◌, ◌*◌, ◌^◌, ◌≤◌, ◌<◌, ◌≡◌, refl, ◌∙◌, ◌⊎◌, inl, inr, arith, ok,
}
use relaybaton.RateLimiter.{begin_wait, RateLimiter, tick}

pub ticks : ℕ → RateLimiter → RateLimiter
ticks zero rl = rl
ticks (suc k) rl = ticks k (tick rl)

-- The tokens after a round that does not serve the call.
tick_waits :
    (rl : RateLimiter) (n : ℕ)
    → rl.waiting ≡ n
    → 0 < n
    → n ≤ rl.capacity
    → rl.capacity + rl.bandwidth < 2 ^ 64
    → rl.tokens ≤ rl.capacity
    → let rl' = tick rl in
      (rl'.capacity ≡ rl.capacity)
      × (rl'.bandwidth ≡ rl.bandwidth)
      × (rl'.tokens ≤ rl.capacity)
      × (((rl'.done ≡ rl.done - 1) × (rl'.waiting ≡ 0))
          ⊎ ((rl'.done ≡ rl.done)
              × (rl'.waiting ≡ n)
              × (rl.tokens + rl.bandwidth ≤ rl'.tokens)
              × (rl'.tokens < n)))
unfolding tick
tick_waits rl n w p c f t = ground arith

ticks_idle :
    (k : ℕ) (rl : RateLimiter)
    → rl.waiting ≡ 0
    → ((ticks k rl).waiting ≡ 0) × ((ticks k rl).done ≡ rl.done)
unfolding ticks
ticks_idle zero rl w = (w, refl)
ticks_idle (suc k) rl w = ground (arith, tick_idle rl w, ticks_idle k (tick rl))
  where
    tick_idle :
        (r : RateLimiter) → r.waiting ≡ 0 → ((tick r).waiting ≡ 0) × ((tick r).done ≡ r.done)
    tick_idle r w = unfold tick in ground arith

ticks-served :
    (k n : ℕ) (rl : RateLimiter)
    → rl.waiting ≡ n
    → rl.done ≡ 1
    → 0 < n
    → n ≤ rl.capacity
    → rl.capacity + rl.bandwidth < 2 ^ 64
    → rl.tokens ≤ rl.capacity
    → 0 < k
    → n ≤ rl.tokens + k * rl.bandwidth
    → ((ticks k rl).waiting ≡ 0) × ((ticks k rl).done ≡ 0)
unfolding ticks
ticks-served zero n rl w d p c f t z h = absurd (omega arith)
ticks-served (suc k) n rl w d p c f t z h =
    let (ec, eb, et, cases) = tick_waits rl n w p c f t in
    elim cases [
      | inl (ed, ew) ↦ ground (arith, ticks_idle k (tick rl) ew)
      | inr (ed, ew, grown, short) ↦
          let left : n ≤ (tick rl).tokens + k * (tick rl).bandwidth =
            rw eb (omega (arith, suc_mul k rl.bandwidth)) in
          ticks-served k n (tick rl) ew (ed ∙ d) p (rw ec c) (rw (ec, eb) f) (rw ec et)
            (positive k (tick rl).bandwidth (omega arith)) left
    ]
  where
    suc_mul : (a b : ℕ) → suc a * b ≡ b + a * b
    suc_mul a b = omega arith

    positive : (a b : ℕ) → 0 < a * b → 0 < a
    positive zero b q = omega arith
    positive (suc a) b q = omega arith

-- Where no call waits, the tokens are within the capacity, and the capacity and the bandwidth
-- together fit in a word: a call of `Wait` for n tokens, 0 < n, that is not refused is served
-- within k rounds of `Run`, k > 0, if the tokens at hand and those of k rounds make n.
pub begin_wait-served :
    (rl rl' : RateLimiter) (n k : ℕ)
    → begin_wait rl n ≡ ok rl'
    → rl.done ≡ 0
    → rl.tokens ≤ rl.capacity
    → rl.capacity + rl.bandwidth < 2 ^ 64
    → 0 < n
    → 0 < k
    → n ≤ rl.tokens + k * rl.bandwidth
    → ((ticks k rl').waiting ≡ 0) × ((ticks k rl').done ≡ 0)
unfolding begin_wait
begin_wait-served rl rl' n k b d t f p z h = ground (arith, ticks-served k n rl')
