-- ===== src/Tests/Overlaps.antt =====
-- Two relays of one user that begin at the same time, while a third one ends its call.
use relaybaton.Common.Dict.{get}
use relaybaton.Common.{
  ℕ, ◌/◌, ◌<◌, String, refl, [], ◌∷◌, ◌++◌, same_nat, same_string, same_bytes, Result, ok,
}
use relaybaton.RateLimiter.{new_rate_limiter}
use relaybaton.Server.Buckets.{Buckets}
use relaybaton.Server.Overlap.{calls, start_calls, looks, gives, Has, calls-overlap}
use relaybaton.Web.Rows.{User}
use relaybaton.Tests.Handlers.{alice}

abbrev no_buckets : Buckets
no_buckets = record { places = []; limiters = [] }

abbrev users : ℕ → Result String User
users k = ok alice

calls-overlap_example :
    let c =
      calls "alice" users
        (start_calls "alice" users no_buckets)
        (looks 0 ∷ looks 1 ∷ gives 0 ∷ (looks 2 ∷ gives 2 ∷ []) ++ gives 1 ∷ []) in
    (p : ℕ) × (q : ℕ) × Has "alice" users c 0 p (new_rate_limiter (100 / 2))
    × Has "alice" users c 1 q (new_rate_limiter (100 / 2))
    × (p < q)
unfolding get
calls-overlap_example =
    calls-overlap "alice" users no_buckets 0 1 alice alice (looks 2 ∷ gives 2 ∷ []) refl refl refl
      refl (refl, (refl, tt)) (refl, (refl, tt))
