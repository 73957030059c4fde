-- ===== src/Server/Relay/Steps.antt =====
-- What one round of the relay loops of pkg/core/server.go does to what was received and written.
use relaybaton.Common.{ℕ, ◌≡◌, true, false, ◌++◌, arith, Bytes}
use relaybaton.Server.Relay.{
  Relay, Event, stops_download, stops_upload, fails_to_write, fails_to_send, downloads, uploads,
  round, runs, step,
}

-- What a round of the server leaves of the two sides that the websocket sees.
pub record Keeps (r s : Relay) : Type 0 where
  pub received : s.received ≡ r.received
  pub written : s.written ≡ r.written

pub Keeps-stops_upload : (r : Relay) → Keeps r (step r stops_upload)
unfolding step round runs
Keeps-stops_upload r = ground arith

pub Keeps-stops_download : (r : Relay) → Keeps r (step r stops_download)
unfolding step round runs
Keeps-stops_download r = ground arith

pub Keeps-fails_to_write : (r : Relay) (b : Bytes) → Keeps r (step r (fails_to_write b))
unfolding step round runs
Keeps-fails_to_write r b = ground arith

pub record Takes (r s : Relay) (b : Bytes) : Type 0 where
  pub received : s.received ≡ r.received ++ b
  pub written : s.written ≡ r.written

pub Takes-uploads : (r : Relay) (b : Bytes) → r.uploading ≡ true → Takes r (step r (uploads b)) b
unfolding step round runs
Takes-uploads r b h = ground arith

pub Takes-fails_to_send :
    (r : Relay) (n : ℕ) (b : Bytes) → r.uploading ≡ true → Takes r (step r (fails_to_send n b)) b
unfolding step round runs
Takes-fails_to_send r n b h = ground arith

pub downloads_written :
    (r : Relay) (b : Bytes)
    → r.downloading ≡ true
    → ((step r (downloads b)).received ≡ r.received)
      × ((step r (downloads b)).written ≡ r.written ++ b)
unfolding step round runs
downloads_written r b h = ground arith

pub downloads_uploading : (r : Relay) (b : Bytes) → (step r (downloads b)).uploading ≡ r.uploading
unfolding step round runs
downloads_uploading r b = ground arith

pub stops_uploading : (r : Relay) → (step r stops_download).uploading ≡ r.uploading
unfolding step round runs
stops_uploading r = ground arith

-- A loop that has ended does not run again.
pub step-ended :
    (r : Relay) (e : Event)
    → (r.downloading ≡ false) × (r.uploading ≡ false)
    → ((step r e).downloading ≡ false) × ((step r e).uploading ≡ false)
unfolding step round runs
step-ended r stops_download h = ground arith
step-ended r stops_upload h = ground arith
step-ended r (fails_to_write b) h = ground arith
step-ended r (fails_to_send n b) h = ground arith
step-ended r (downloads b) h = ground arith
step-ended r (uploads b) h = ground arith
