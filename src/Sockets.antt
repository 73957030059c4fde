-- ===== src/Sockets.antt =====
-- The sockets beside the two relays: the segmented connection, the transparent proxy, the HTTP proxy
-- and the socket in memory that the web interface listens on (pkg/core, internal/memsocket).
pub mod Segment
pub mod Memory
pub mod Redirect
pub mod Http
