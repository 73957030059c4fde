-- ===== src/Client.antt =====
-- The client's event loop: the connections of pkg/core/conn.go and pkg/core/map.go, and the gnet
-- event handlers of pkg/core/client.go. `Conn` has a connection and the map of them, `Address` the
-- destination of a request, `React` the handler of a frame, `Events` those of opening and closing,
-- `Copying` the goroutines that copy back, `Dialing` the dial of the server, `Starting` the start and
-- the end of a client, `History` its calls for all the connections, `Fields` what is logged of a
-- failed dial.
pub mod Conn
pub mod Address
pub mod React
pub mod Events
pub mod Copying
pub mod Closing
pub mod Dialing
pub mod Fields
pub mod Starting
pub mod History
