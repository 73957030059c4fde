-- ===== src/Server/Relay.antt =====
-- The two loops of a relayed connection in `requestHandler` of pkg/core/server.go, and the traffic
-- that is put down to the user at their end. An event is one round of a loop, as far as it gets; the
-- loops share `bandwidth`, an `int` of 64 bits, whose additions are taken one at a time.
use relaybaton.Common.{
  take, ℕ, ◌+◌, String, Bool, true, false, List, [], ◌∷◌, ◌++◌, if◌then◌else◌, Bytes, length,
  Result, ok, err,
}
pub mod Laws
pub mod Steps
use relaybaton.Common.Words.{u64}
use relaybaton.Web.Rows.{User}
use relaybaton.Web.Database.{Gorm}

pub record Relay : Type 0 where
  -- What was read from the destination and let through by `Wait`, and what was written of it.
  pub read : Bytes
  pub written : Bytes
  -- What came from the client, and what was written of it to the destination.
  pub received : Bytes
  pub sent : Bytes
  pub bandwidth : ℕ
  pub downloading : Bool
  pub uploading : Bool

-- A round ends its loop at the bucket, at the read or at `Wait`, ends it at the write, or does not
-- end it.
pub data Event : Type 0 where
  stops_download stops_upload : Event
  fails_to_write : Bytes → Event
  -- A write that fails may have written some of the bytes: their number.
  fails_to_send : ℕ → Bytes → Event
  downloads uploads : Bytes → Event

unfoldable pub new_relay : Relay
new_relay = record {
  read = [];
  written = [];
  received = [];
  sent = [];
  bandwidth = 0;
  downloading = true;
  uploading = true;
}

-- `bandwidth += n`, before the write.
abbrev read_more : Relay → Bytes → Relay
read_more r b = record r { read = r.read ++ b; bandwidth = u64 (r.bandwidth + length b) }

abbrev receive_more : Relay → Bytes → Relay
receive_more r b = record r { received = r.received ++ b; bandwidth = u64 (r.bandwidth + length b) }

pub round : Relay → Event → Relay
round r stops_download = record r { downloading = false }
round r stops_upload = record r { uploading = false }
round r (fails_to_write b) = record (read_more r b) { downloading = false }
round r (fails_to_send n b) = record (receive_more r b) {
  sent = r.sent ++ take n b;
  uploading = false;
}
round r (downloads b) = record (read_more r b) { written = r.written ++ b }
round r (uploads b) = record (receive_more r b) { sent = r.sent ++ b }

-- Whether the loop of the event still runs.
pub runs : Relay → Event → Bool
runs r stops_download = r.downloading
runs r stops_upload = r.uploading
runs r (fails_to_write b) = r.downloading
runs r (fails_to_send n b) = r.uploading
runs r (downloads b) = r.downloading
runs r (uploads b) = r.uploading

unfoldable pub step : Relay → Event → Relay
unfolding round runs
step r e = if runs r e then round r e else r

unfoldable pub relay : Relay → List Event → Relay
unfolding step
relay r [] = r
relay r (e ∷ es) = relay (step r e) es

-- The deferred function; the user may be gone by then.
unfoldable pub charge : (gorm : Gorm) → gorm.Db → ℕ → Result String User → gorm.Db
charge gorm db bandwidth (err e) = db
charge gorm db bandwidth (ok user) =
    gorm.save_user db (record user { traffic_used = u64 (user.traffic_used + bandwidth) })

unfoldable pub finish : (gorm : Gorm) → gorm.Db → String → Relay → gorm.Db
unfolding charge
finish gorm db username r = charge gorm db r.bandwidth (gorm.user_with_plan db username)
