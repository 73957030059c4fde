-- ===== src/Tests/Quotas.antt =====
-- A user at the end of a traffic limit, and the requests after it is reached.
use relaybaton.Common.{◌≡◌, refl, false, List, [], ◌∷◌, arith, eq_self}
use relaybaton.Web.Rows.{User}
use relaybaton.Server.Authenticate.{authenticate}
use relaybaton.Server.Relay.{Event, downloads, uploads, new_relay, relay, finish}
use relaybaton.Server.Quota.{FindsSaved, finish-authenticate}
use relaybaton.Tests.Handlers.{gorm, crypto, alice}
use relaybaton.Tests.Relays.{headers}

abbrev limited : User
limited = record alice { traffic_used = 998; plan = record alice.plan { traffic_limit = 1000 } }

abbrev traffic : List Event
traffic = downloads (1 ∷ 2 ∷ []) ∷ uploads (3 ∷ []) ∷ []

pub gorm-FindsSaved : FindsSaved gorm
gorm-FindsSaved db u = rw (eq_self u.username) refl

finish-authenticate_example :
    authenticate gorm crypto (finish gorm limited "alice" (relay new_relay traffic)) headers ≡ false
unfolding relay new_relay
finish-authenticate_example =
    finish-authenticate gorm crypto limited headers "alice" limited traffic gorm-FindsSaved refl
      refl refl refl (omega arith) (omega arith)
