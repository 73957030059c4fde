-- ===== src/Tests/Relays.antt =====
-- The server's admission of a request, over the database of one user, and the loops that copy.
use relaybaton.Common.{
  ◌≤◌, String, ◌≡◌, refl, ◌↔◌, true, some, [], ◌∷◌, arith, if◌then◌else◌, replicate, ok,
}
use relaybaton.Ip.Address.{Ip, to4}
use relaybaton.Ip.Reserved.Version4.{in_reserved_range}
use relaybaton.Ip.Reserved.Version6.{IsVersion6}
use relaybaton.RateLimiter.{RateLimiter, begin_wait}
use relaybaton.Server.Authenticate.{
  Headers, authenticate, IsAuthorised, registered, authenticate_iff,
}
use relaybaton.Server.Admission.{Network, reserved, dial_and_upgrade, request_handler}
use relaybaton.Server.Admission.Laws.{
  mapped, request_handler-in_reserved_range, request_handler-IsVersion6,
}
use relaybaton.Server.Buckets.{Buckets, read_len, read_len-begin_wait}
use relaybaton.Tests.Handlers.{gorm, crypto, alice}
use relaybaton.Tests.Buckets.{filled, back, first_round, one_call}

abbrev pub headers : Headers
headers = record { addr = some "dst:80"; username = some "alice"; password = some "BwcH" }

alice-authenticated : authenticate gorm crypto alice headers ≡ true
unfolding authenticate
alice-authenticated = refl

alice-IsAuthorised : IsAuthorised gorm crypto alice headers
alice-IsAuthorised =
    registered {username = "alice"} {password = "BwcH"} {user = alice} {k = replicate 64 7}
      {correct_key = replicate 64 7} refl refl refl (omega arith) refl refl refl refl refl

authenticate_iff_example :
    (authenticate gorm crypto alice headers ≡ true)
    ↔ (((addr : String) × (headers.addr ≡ some addr)) × IsAuthorised gorm crypto alice headers)
authenticate_iff_example = authenticate_iff gorm crypto alice headers

abbrev answering : Ip → Network
answering ip = record {
  resolve_tcp_addr = λ addr. some (record { ip = ip; port = 80 });
  dial = λ addr. true;
  upgrade = true;
}

-- 127.0.0.1, as `ResolveTCPAddr` gives it.
abbrev loopback4 : Ip
loopback4 = 0 ∷ 0 ∷ 0 ∷ 0 ∷ 0 ∷ 0 ∷ 0 ∷ 0 ∷ 0 ∷ 0 ∷ 255 ∷ 255 ∷ 127 ∷ 0 ∷ 0 ∷ 1 ∷ []

request_handler-in_reserved_range_example :
    request_handler gorm crypto alice headers (answering loopback4) ≡ (
      if in_reserved_range 127 0 0 1
      then reserved
      else dial_and_upgrade (answering loopback4) (some "dst:80"))
request_handler-in_reserved_range_example =
    request_handler-in_reserved_range gorm crypto alice headers (answering loopback4) 127 0 0 1
      (record { ip = loopback4; port = 80 }) mapped (omega arith) alice-authenticated refl

abbrev loopback6 : Ip
loopback6 = 0 ∷ 0 ∷ 0 ∷ 0 ∷ 0 ∷ 0 ∷ 0 ∷ 0 ∷ 0 ∷ 0 ∷ 0 ∷ 0 ∷ 0 ∷ 0 ∷ 0 ∷ 1 ∷ []

loopback6-IsVersion6 : IsVersion6 loopback6
unfolding to4
loopback6-IsVersion6 = record { bytes = omega arith; long = refl; not_mapped = refl }

request_handler-IsVersion6_example :
    request_handler gorm crypto alice headers (answering loopback6)
    ≡ dial_and_upgrade (answering loopback6) (some "dst:80")
request_handler-IsVersion6_example =
    request_handler-IsVersion6 gorm crypto alice headers (answering loopback6)
      (record { ip = loopback6; port = 80 }) loopback6-IsVersion6 alice-authenticated refl

abbrev made : Buckets
made = record {
  places = ("alice", 0) ∷ [];
  limiters = record { bandwidth = 50; tokens = 0; capacity = 800; done = 0; waiting = 0 } ∷ [];
}

read_fits : 60 ≤ read_len filled.limiter
unfolding read_len
read_fits = omega arith

read_len-begin_wait_example : (rl : RateLimiter) × (begin_wait back.limiter 60 ≡ ok rl)
read_len-begin_wait_example =
    read_len-begin_wait 100 60 (omega arith) first_round one_call read_fits
