-- ===== src/Server/Buckets.antt =====
-- `Server.GetBucket` of pkg/core/server.go, and the size of a read in the relay loop. A limiter is
-- shared by all connections of its user: the map has pointers, here places in a list of limiters.
use relaybaton.Common.{
  ℕ, ◌+◌, ◌*◌, ◌/◌, ◌^◌, ◌≤◌, ◌<◌, String, ◌≡◌, refl, Option, none, some, List, [], ◌∷◌, ◌++◌,
  arith, ◌=ℕ◌, if◌then◌else◌, length, same_nat, same_string, same_bytes, eq_self, Result, ok, err,
}
use relaybaton.Common.Dict
use relaybaton.Common.Dict.{Dict}
use relaybaton.RateLimiter.{RateLimiter, new_rate_limiter, begin_wait, available}
use relaybaton.RateLimiter.System.{System, start, Reach}
use relaybaton.RateLimiter.System.Conservation.{Reach-Inv, start-Inv}
use relaybaton.Web.Rows.{User}
use relaybaton.Web.Database.{Gorm}

pub record Buckets : Type 0 where
  pub places : Dict String ℕ
  pub limiters : List RateLimiter

-- `NewRateLimiter(user.Plan.BandwidthLimit / 2)`, and `Put`.
unfoldable pub make_bucket : Buckets → String → User → ℕ × Buckets
make_bucket m username user = (
  length m.limiters,
  record {
    places = Dict.put username (length m.limiters) m.places;
    limiters = m.limiters ++ new_rate_limiter (user.plan.bandwidth_limit / 2) ∷ [];
  },
)

unfoldable pub make_if_found : Buckets → String → Result String User → Result String ℕ × Buckets
unfolding make_bucket
make_if_found m username (err e) = (err e, m)
make_if_found m username (ok user) = let (place, m') = make_bucket m username user in (ok place, m')

unfoldable pub place_or_make :
    Buckets → String → Option ℕ → Result String User → Result String ℕ × Buckets
unfolding make_if_found
place_or_make m username (some place) user = (ok place, m)
place_or_make m username none user = make_if_found m username user

module _ (gorm : Gorm) where
  open gorm use {Db, user_with_plan}

  unfoldable pub get_bucket : Db → Buckets → String → Result String ℕ × Buckets
  unfolding place_or_make
  get_bucket db m username =
      place_or_make m username (Dict.get username m.places) (user_with_plan db username)

  placed :
      (db : Db) (m m' : Buckets) (username : String) (place : ℕ) (o : Option ℕ)
      (user : Result String User)
      → Dict.get username m.places ≡ o
      → place_or_make m username o user ≡ (ok place, m')
      → Dict.get username m'.places ≡ some place
  unfolding place_or_make
  placed db m m' username place (some p) user g e = ground arith
  placed db m m' username place none (err x) g e = ground arith
  placed db m m' username place none (ok user) g e =
      ground (arith, Dict.get-put username username (length m.limiters) m.places, eq_self username)

  -- Once `GetBucket` has given a user a limiter, later calls give the same one and make none,
  -- whatever the database says by then of the user and the plan.
  get_bucket-get_bucket :
      (db later : Db) (m m' : Buckets) (username : String) (place : ℕ)
      → get_bucket db m username ≡ (ok place, m')
      → get_bucket later m' username ≡ (ok place, m')
  unfolding get_bucket
  get_bucket-get_bucket db later m m' username place e = rw (
      placed db m m' username place (Dict.get username m.places) (user_with_plan db username) refl
        e)

-- The size of the buffer of a read.
unfoldable pub read_len : RateLimiter → ℕ
unfolding available
read_len rl = if available rl =ℕ 0 then rl.bandwidth else available rl

-- What a read of at most the chosen size returns is never too much for `Wait`, in whatever states
-- of a new limiter the size is chosen and `Wait` is called afterwards, if sixteen times the
-- bandwidth fits in a word.
pub read_len-begin_wait :
    (b n : ℕ) {s t : System}
    → b * 2 ^ 4 < 2 ^ 64
    → Reach (start (new_rate_limiter b)) s
    → Reach s t
    → n ≤ read_len s.limiter
    → (rl : RateLimiter) × (begin_wait t.limiter n ≡ ok rl)
unfolding read_len begin_wait
read_len-begin_wait b n {t = t} fits r r' h =
    let v = Reach-Inv (start-Inv b) r in
    let v' = Reach-Inv v r' in
    (
      record t.limiter { waiting = n; done = t.limiter.done + 1 },
      ground (arith, v.bandwidth, v.capacity, v.bounded, v'.capacity),
    )
