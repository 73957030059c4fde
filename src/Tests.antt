-- ===== src/Tests.antt =====
-- The theorems at concrete inputs: frames, limiters, routers, clients, databases, settings.
pub mod Frames
pub mod Buckets
pub mod Routes
pub mod Clients
pub mod Handlers
pub mod Relays
pub mod Configs
pub mod Datagrams
pub mod Pipes
pub mod Sessions
pub mod Quotas
pub mod Commands
pub mod Plans
pub mod Tunnels
pub mod Servers
pub mod Charges
pub mod Slow
pub mod Histories
pub mod Overlaps
pub mod Phones
