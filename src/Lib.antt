-- ===== src/Lib.antt =====
-- A model of relaybaton, a transport against Internet censorship: a client that takes SOCKS5 and
-- sends what goes abroad through a websocket to a server, and the server's web interface.
--
-- The client reads SOCKS5 messages, asks its router whether the destination is to be reached through
-- the server or directly, dials, and relays frames. The router asks a table of reserved networks,
-- then a cache and a country database, which a download replaces while connections are open. The
-- server limits each user's traffic by a token bucket, and the web interface manages users, plans,
-- notices and the log in a database.
--
-- - Common: what the others share: tests, lists, association lists for Go's maps, machine words,
--   decimal numbers, results for Go's pairs of a value and an error.
-- - Socks5: pkg/socks5. `Reader` is a `bytes.Reader` with the tests after each read; `Method`,
--   `Request` and `Reply` have the messages. An error is a constructor for each of the source's.
-- - RateLimiter: pkg/core/ratelimiter.go. One function for each critical section; `System` is a step
--   relation of `Run` and any number of calls of `Wait`. Words are 64 bits and wrap around. There is
--   no fuel: a run is as many steps as it has.
-- - Ip: `isReservedIP` and its table of pkg/core/router.go, and of the standard library's net.IP what
--   it calls, written out.
-- - Router: the rest of pkg/core/router.go. A panic is `none`. What the web, the disk and the archive
--   give is an argument. `History` is the step relation of one router.
-- - Client: pkg/core/client.go, conn.go and map.go. `React` gives the bytes for the local side, the
--   action, the client afterwards and the effects on the other side; a socket is modelled by whether
--   it is there, and what the network answers in one call is an argument. `Copying` has the
--   goroutines that copy back, over the rounds they make, `Dialing` the dial of the server with ESNI
--   keys, `Starting` the start and the end, `History` the calls of one client for all its connections.
-- - Web: the handlers of pkg/core/server_web.go with the rows of pkg/model and the messages of
--   pkg/webapi. The database, the captcha and the cryptography are parameters, and what is assumed of
--   them stands in a theorem's hypotheses. `Routes` is the table of pkg/core/server.go.
-- - Server: the relay's side of pkg/core/server.go. `Authenticate` and `Admission` are the handler of a
--   request up to the relay, `Buckets` the limiters of the users with the map's pointers as places in
--   a list, `Relay` the rounds of the two relay loops as a list of events, in any order,
--   `Registration` a user's way from the web interface to the relay, `Quota` the end of a traffic
--   limit, `Charging` the ends of several relays of one user at a time, `Overlap` the calls of
--   `GetBucket` at the same time, `Slow` a plan whose limit of the bandwidth is below 2, `Starting`
--   the start.
-- - Tunnel: a connection through the server from one end to the other, with `React`, the websocket, the
--   relay loops and `Conn.Run` as the parts of one system, whose runs are lists of moves.
-- - Commands: internal/cmd/relaybaton and the functions `Run` of cmd/desktop and of
--   cmd/relaybaton_mobile, from the configuration to the client that serves.
-- - Config: pkg/config. `Toml` has the sections of the file and `Validate` the checks of their tags,
--   `Init` and `Database` make of them what the program uses, `Load` is what the commands call. What
--   viper reads, and which strings the package validator takes for hosts and addresses, are parameters.
-- - Bindings: cmd/desktop/core.go and cmd/relaybaton_mobile, what a program with a window or a phone
--   makes of its settings, and the phone's DNS questions.
-- - Sockets: `Segment` is pkg/core/tcp_segment_conn.go, with the segments that were sent as its state,
--   `Memory` is internal/memsocket as a step relation of the operations that went through, `Redirect`
--   is pkg/core/redir_linux.go, `Http` pkg/core/http_server.go.
-- - Resolvers: pkg/dns, and the choice that `InitDNS` makes.
-- - Logging: pkg/log and the row of pkg/model/log.go that an entry becomes; `Gorm` has the messages of
--   the database.
-- - Tests: the theorems at concrete inputs.
--
-- Not modelled: what the program only passes on to gnet, gin, fasthttp, fx, cobra and tun2socks; the
-- encoders of XML and JSON; the program's own calls of the log; system calls; C strings as memory. Loops
-- without an end are lists of their rounds or step relations, so nothing runs on fuel. Two
-- goroutines' writes to one field that no mutex guards are taken in some order.
pub mod Common
pub mod Sockets
pub mod Socks5
pub mod Logging
pub mod RateLimiter
pub mod Resolvers
pub mod Ip
pub mod Router
pub mod Client
pub mod Bindings
pub mod Config
pub mod Web
pub mod Server
pub mod Tunnel
pub mod Commands
pub mod Tests
