-- ===== src/Server.antt =====
-- The server's side of the relay: pkg/core/server.go. `Authenticate` has the check of a request's
-- headers, `Admission` the handler up to the relay, `Buckets` the limiters of the users, and
-- `Relay` the two loops and the account of the traffic; `Registration` is a user's way from the web
-- interface to the relay, `Quota` the end of a traffic limit, `Charging` the ends of several relays
-- of one user at a time, `Overlap` the calls of `GetBucket` at the same time, `Slow` a plan whose
-- limit of the bandwidth is below 2, `Starting` the start.
pub mod Authenticate
pub mod Admission
pub mod Buckets
pub mod Relay
pub mod Registration
pub mod Starting
pub mod Quota
pub mod Charging
pub mod Slow
pub mod Overlap
