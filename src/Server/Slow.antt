-- ===== src/Server/Slow.antt =====
-- A user whose plan has a bandwidth limit below 2: `GetBucket`, the size of a read and `Wait` of
-- pkg/core/server.go and pkg/core/ratelimiter.go together.
use relaybaton.Common.{
  get_elem?-length, get_elem?, ℕ, ◌/◌, ◌≤◌, ◌<◌, String, ◌≡◌, sym, ap, ◌∙◌, Option, none, some,
  arith, same_nat, same_string, same_bytes, Result, ok, err, some_injective,
}
use relaybaton.Common.Dict
use mathlib.Core.Path.{subst}
use relaybaton.RateLimiter.{RateLimiter, new_rate_limiter, begin_wait, available}
use relaybaton.RateLimiter.System.{System, start, Reach}
use relaybaton.RateLimiter.System.Conservation.{Reach-Inv, start-Inv, Reach-total}
use relaybaton.RateLimiter.System.Deadlock.{begin_wait-zero}
use relaybaton.Server.Buckets.{
  Buckets, get_bucket, read_len, place_or_make, make_if_found, make_bucket,
}
use relaybaton.Web.Rows.{User}
use relaybaton.Web.Database.{Gorm}

-- The limiter that a call has given.
abbrev pub limiter_of : Result String ℕ × Buckets → Option RateLimiter
limiter_of (ok place, m) = get_elem? m.limiters place
limiter_of (err e, m) = none

module _ (gorm : Gorm) where
  limiter_of-get_bucket :
      (db : gorm.Db) (m : Buckets) (username : String) (user : User)
      → Dict.get username m.places ≡ none
      → gorm.user_with_plan db username ≡ ok user
      → limiter_of (get_bucket gorm db m username)
        ≡ some (new_rate_limiter (user.plan.bandwidth_limit / 2))
  unfolding get_bucket place_or_make make_if_found make_bucket
  limiter_of-get_bucket db m username user first found =
      rw (first, found)
        (get_elem?-length m.limiters (new_rate_limiter (user.plan.bandwidth_limit / 2)))

-- In every state of a limiter of no bandwidth the buffer of a read is empty.
read_len-zero :
    {s : System}
    → Reach (start (new_rate_limiter 0)) s
    → (read_len s.limiter ≡ 0) × (s.returned ≡ 0)
unfolding read_len available
read_len-zero {s = s} r =
    let v = Reach-Inv (start-Inv 0) r in
    (ground (arith, v.bandwidth, v.capacity, v.bounded), omega (arith, Reach-total 0 r))

-- So the call of `Wait` for what the read has returned is for no tokens.
wait-zero :
    (n : ℕ) (waiting : RateLimiter) {s t : System}
    → Reach (start (new_rate_limiter 0)) s
    → n ≤ read_len s.limiter
    → s.mutex_wait ≡ none
    → begin_wait s.limiter n ≡ ok waiting
    → Reach (record s { limiter = waiting; mutex_wait = some n }) t
    → (n ≡ 0) × (t.mutex_wait ≡ some 0) × (t.returned ≡ 0)
wait-zero n waiting {s} {t} r fits free begun later =
    let (empty, nothing) = read_len-zero r in
    let none_read : n ≡ 0 = omega (arith, fits, empty) in
    let (held, same) =
      begin_wait-zero s waiting {t = t} free
        (subst (λ k. begin_wait s.limiter k ≡ ok waiting) none_read begun)
        (subst (λ k. Reach (record s { limiter = waiting; mutex_wait = some k }) t) none_read
          later) in
    (none_read, held, same ∙ nothing)

slow : (n : ℕ) → n < 2 → n / 2 ≡ 0
slow n h = omega arith

module _ (gorm : Gorm) where
  -- A user whose plan has a bandwidth limit below 2 gets no byte from the destination: in every state
  -- of the limiter that the user's first request has made, the buffer of a read is empty; so the
  -- read returns no bytes, and once `Wait` is called for what it returned, that call holds the
  -- mutex in every later state, and no tokens at all have been returned for.
  pub get_bucket-begin_wait :
      (db : gorm.Db) (m : Buckets) (username : String) (user : User) (rl waiting : RateLimiter)
      (n : ℕ) {s t : System}
      → Dict.get username m.places ≡ none
      → gorm.user_with_plan db username ≡ ok user
      → user.plan.bandwidth_limit < 2
      → limiter_of (get_bucket gorm db m username) ≡ some rl
      → Reach (start rl) s
      → n ≤ read_len s.limiter
      → s.mutex_wait ≡ none
      → begin_wait s.limiter n ≡ ok waiting
      → Reach (record s { limiter = waiting; mutex_wait = some n }) t
      → (n ≡ 0) × (t.mutex_wait ≡ some 0) × (t.returned ≡ 0)
  get_bucket-begin_wait db m username user rl waiting n {s} {t} first found few made r fits free
        begun later =
      let no_bandwidth : rl ≡ new_rate_limiter 0 =
        some_injective (sym made ∙ limiter_of-get_bucket gorm db m username user first found)
        ∙ ap new_rate_limiter (slow user.plan.bandwidth_limit few) in
      wait-zero n waiting (subst (λ l. Reach (start l) s) no_bandwidth r) fits free begun later
